-- ===== src/Trigger/Tests.antt =====
-- One request through the constructor and back.
use mscclpp.Base.{◌≡◌, refl, arith, true}
use mscclpp.Trigger.{Trigger, Request, asserted, make_trigger, fields, flip}
use mscclpp.Trigger.Layout.{IsPushable, fields-make_trigger, make_trigger-IsPushable, flip-flip}

abbrev request : Request
request = record {
  type = 3;
  dst_id = 511;
  dst_offset = 4096;
  src_id = 2;
  src_offset = 0xffff_ffff;
  bytes = 1024;
  semaphore_id = 1023;
}

request-asserted : asserted request ≡ true
unfolding asserted
request-asserted = refl

fields-make_trigger_example : fields (make_trigger request) ≡ request
fields-make_trigger_example = fields-make_trigger request request-asserted

make_trigger-IsPushable_example : IsPushable (make_trigger request)
make_trigger-IsPushable_example = make_trigger-IsPushable request request-asserted

abbrev packed : Trigger
packed = record { fst = 7; snd = 5 }

flip-flip_example : flip (flip packed) ≡ packed
flip-flip_example = flip-flip packed (omega arith)
