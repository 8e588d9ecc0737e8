-- ===== src/Plan/Types.antt =====
-- The enumerations of src/core/include/execution_common.hpp, and the functions of
-- src/core/executor/execution_plan.cc that read them from the words of a plan file.
pub mod Words
use Prim.Native.String.{String}
use text.Mathlib.Text.{◌==◌ as str_eq}
use mscclpp.Base.{Result, ok, err, thrown, executor_error, if◌then◌else◌}

pub data BufferType : Type 0 where
  none input output scratch : BufferType

pub data ChannelType : Type 0 where
  none memory port switch : ChannelType

pub data OperationType : Type 0 where
  nop barrier put put_packets read_put_packets put_with_signal : OperationType
  put_with_signal_and_flush get copy copy_packets unpack_packets signal wait : OperationType
  flush reduce reduce_packets reduce_copy_packets reduce_send : OperationType
  reduce_send_packets reduce_copy_send_packets read_reduce read_reduce_send : OperationType
  multi_load_reduce_store relaxed_signal relaxed_wait pipeline : OperationType
  sem_release sem_acquire : OperationType

-- `getOpType`
unfoldable pub get_op_type : String → Result OperationType
get_op_type str =
    if str_eq str "nop"
    then ok nop
    else if str_eq str "barrier"
    then ok barrier
    else if str_eq str "put"
    then ok put
    else if str_eq str "pws"
    then ok put_with_signal
    else if str_eq str "pwsf"
    then ok put_with_signal_and_flush
    else if str_eq str "get"
    then ok get
    else if str_eq str "copy"
    then ok copy
    else if str_eq str "signal"
    then ok signal
    else if str_eq str "wait"
    then ok wait
    else if str_eq str "flush"
    then ok flush
    else if str_eq str "re"
    then ok reduce
    else if str_eq str "res"
    then ok reduce_send
    else if str_eq str "rre"
    then ok read_reduce
    else if str_eq str "rres"
    then ok read_reduce_send
    else if str_eq str "ppkt"
    then ok put_packets
    else if str_eq str "rppkt"
    then ok read_put_packets
    else if str_eq str "respkt"
    then ok reduce_send_packets
    else if str_eq str "cpkt"
    then ok copy_packets
    else if str_eq str "upkt"
    then ok unpack_packets
    else if str_eq str "repkt"
    then ok reduce_packets
    else if str_eq str "recpkt"
    then ok reduce_copy_packets
    else if str_eq str "recspkt"
    then ok reduce_copy_send_packets
    else if str_eq str "glres"
    then ok multi_load_reduce_store
    else if str_eq str "rlxsignal"
    then ok relaxed_signal
    else if str_eq str "rlxwait"
    then ok relaxed_wait
    else if str_eq str "pipeline"
    then ok pipeline
    else if str_eq str "sem_acquire"
    then ok sem_acquire
    else if str_eq str "sem_release"
    then ok sem_release
    else err (thrown executor_error)

-- `convertToBufferType`
unfoldable pub convert_to_buffer_type : String → Result BufferType
convert_to_buffer_type str =
    if str_eq str "i"
    then ok input
    else if str_eq str "o"
    then ok output
    else if str_eq str "s"
    then ok scratch
    else err (thrown executor_error)

-- `convertToChannelType`
unfoldable pub convert_to_channel_type : String → Result ChannelType
convert_to_channel_type str =
    if str_eq str "memory"
    then ok memory
    else if str_eq str "port"
    then ok port
    else if str_eq str "none"
    then ok ChannelType.none
    else if str_eq str "switch"
    then ok switch
    else err (thrown executor_error)
