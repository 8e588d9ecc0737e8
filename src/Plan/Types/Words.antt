-- ===== src/Plan/Types/Words.antt =====
-- The words of a plan file name the operations, buffers and channels one to one.
use Prim.Native.String.{String}
use text.Mathlib.TextEquality.{eq_iff}
use text.Mathlib.Text.{◌==◌ as str_eq}
use mscclpp.Base.{Result, ok, inl, inr, ◌≡◌, ◌↔◌, refl, sym, ap, ◌∙◌, Bool-cases, if◌then◌else◌}
use mscclpp.Plan.Types.{OperationType, get_op_type}

-- The word that a plan file writes for an operation, as docs/dsl describes the format.
pub op_word : OperationType → String
op_word OperationType.nop = "nop"
op_word OperationType.barrier = "barrier"
op_word OperationType.put = "put"
op_word OperationType.put_packets = "ppkt"
op_word OperationType.read_put_packets = "rppkt"
op_word OperationType.put_with_signal = "pws"
op_word OperationType.put_with_signal_and_flush = "pwsf"
op_word OperationType.get = "get"
op_word OperationType.copy = "copy"
op_word OperationType.copy_packets = "cpkt"
op_word OperationType.unpack_packets = "upkt"
op_word OperationType.signal = "signal"
op_word OperationType.wait = "wait"
op_word OperationType.flush = "flush"
op_word OperationType.reduce = "re"
op_word OperationType.reduce_packets = "repkt"
op_word OperationType.reduce_copy_packets = "recpkt"
op_word OperationType.reduce_send = "res"
op_word OperationType.reduce_send_packets = "respkt"
op_word OperationType.reduce_copy_send_packets = "recspkt"
op_word OperationType.read_reduce = "rre"
op_word OperationType.read_reduce_send = "rres"
op_word OperationType.multi_load_reduce_store = "glres"
op_word OperationType.relaxed_signal = "rlxsignal"
op_word OperationType.relaxed_wait = "rlxwait"
op_word OperationType.pipeline = "pipeline"
op_word OperationType.sem_release = "sem_release"
op_word OperationType.sem_acquire = "sem_acquire"

get_op_type-op_word : (op : OperationType) → get_op_type (op_word op) ≡ ok op
unfolding get_op_type op_word
get_op_type-op_word OperationType.nop = refl
get_op_type-op_word OperationType.barrier = refl
get_op_type-op_word OperationType.put = refl
get_op_type-op_word OperationType.put_packets = refl
get_op_type-op_word OperationType.read_put_packets = refl
get_op_type-op_word OperationType.put_with_signal = refl
get_op_type-op_word OperationType.put_with_signal_and_flush = refl
get_op_type-op_word OperationType.get = refl
get_op_type-op_word OperationType.copy = refl
get_op_type-op_word OperationType.copy_packets = refl
get_op_type-op_word OperationType.unpack_packets = refl
get_op_type-op_word OperationType.signal = refl
get_op_type-op_word OperationType.wait = refl
get_op_type-op_word OperationType.flush = refl
get_op_type-op_word OperationType.reduce = refl
get_op_type-op_word OperationType.reduce_packets = refl
get_op_type-op_word OperationType.reduce_copy_packets = refl
get_op_type-op_word OperationType.reduce_send = refl
get_op_type-op_word OperationType.reduce_send_packets = refl
get_op_type-op_word OperationType.reduce_copy_send_packets = refl
get_op_type-op_word OperationType.read_reduce = refl
get_op_type-op_word OperationType.read_reduce_send = refl
get_op_type-op_word OperationType.multi_load_reduce_store = refl
get_op_type-op_word OperationType.relaxed_signal = refl
get_op_type-op_word OperationType.relaxed_wait = refl
get_op_type-op_word OperationType.pipeline = refl
get_op_type-op_word OperationType.sem_release = refl
get_op_type-op_word OperationType.sem_acquire = refl

-- One rung of the ladder in `get_op_type`.
rung :
    (str word : String) (found op : OperationType) (rest : Result OperationType)
    → op_word found ≡ word
    → (rest ≡ ok op → str ≡ op_word op)
    → (if str_eq str word then ok found else rest) ≡ ok op
    → str ≡ op_word op
rung str word found op rest w below h = elim (Bool-cases (str_eq str word)) [
  | inl e ↦
      let is_op : found ≡ op = (let h' = rw e at h in cc) in
      (eq_iff str word).0 e ∙ sym w ∙ ap op_word is_op
  | inr e ↦ below (rw e at h)
]

word_of_op : (str : String) (op : OperationType) → get_op_type str ≡ ok op → str ≡ op_word op
unfolding get_op_type op_word
word_of_op str op = rung str "nop" OperationType.nop op _ refl (
    rung str "barrier" OperationType.barrier op _ refl (
      rung str "put" OperationType.put op _ refl (
        rung str "pws" OperationType.put_with_signal op _ refl (
          rung str "pwsf" OperationType.put_with_signal_and_flush op _ refl (
            rung str "get" OperationType.get op _ refl (
              rung str "copy" OperationType.copy op _ refl (
                rung str "signal" OperationType.signal op _ refl (
                  rung str "wait" OperationType.wait op _ refl (
                    rung str "flush" OperationType.flush op _ refl (
                      rung str "re" OperationType.reduce op _ refl (
                        rung str "res" OperationType.reduce_send op _ refl (
                          rung str "rre" OperationType.read_reduce op _ refl (
                            rung str "rres" OperationType.read_reduce_send op _ refl (
                              rung str "ppkt" OperationType.put_packets op _ refl (
                                rung str "rppkt" OperationType.read_put_packets op _ refl (
                                  rung str "respkt" OperationType.reduce_send_packets op _ refl (
                                    rung str "cpkt" OperationType.copy_packets op _ refl (
                                      rung str "upkt" OperationType.unpack_packets op _ refl (
                                        rung str "repkt" OperationType.reduce_packets op _ refl (
                                          rung str "recpkt" OperationType.reduce_copy_packets op _
                                            refl
                                            (rung str "recspkt"
                                              OperationType.reduce_copy_send_packets op _ refl
                                              (rung str "glres"
                                                OperationType.multi_load_reduce_store op _ refl
                                                (rung str "rlxsignal" OperationType.relaxed_signal
                                                  op _ refl
                                                  (rung str "rlxwait" OperationType.relaxed_wait op
                                                    _ refl
                                                    (rung str "pipeline" OperationType.pipeline op _
                                                      refl
                                                      (rung str "sem_acquire"
                                                        OperationType.sem_acquire op _ refl
                                                        (rung str "sem_release"
                                                          OperationType.sem_release op _ refl
                                                          (λ h. cc))))))))))))))))))))))))))))

-- `getOpType` reads exactly the word of each operation, and every operation has its own word.
pub get_op_type_iff :
    (str : String) (op : OperationType) → (get_op_type str ≡ ok op) ↔ (str ≡ op_word op)
get_op_type_iff str op = (word_of_op str op, λ e. ap get_op_type e ∙ get_op_type-op_word op)
