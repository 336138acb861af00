-- ===== src/Samples/ParallelExamples.antt =====
-- Two registrations of one device, with different tokens, in turns: one of them gets the device.
use mathlib.Core.List.{Memᴰ}
use ubirch_cose_client_go.Prelude.{ℕ, refl, List, [], ◌∷◌, Bytes, nat_eq, bytes_eq}
use ubirch_cose_client_go.Dict.{lookup, insert}
use ubirch_cose_client_go.Errors.{text, ok, err}
use ubirch_cose_client_go.Protocol.{
  new_protocol, close_transaction, check_identity_attributes_not_nil,
}
use ubirch_cose_client_go.Threads.{returned, forward, advance, calling, focus}
use ubirch_cose_client_go.Protocol.Steps.{retry_steps}
use ubirch_cose_client_go.IdentityHandler.{Setup}
use ubirch_cose_client_go.IdentityHandler.Steps.{
  store_steps, register_steps, create_steps, in_transaction_steps, init_identity_steps,
}
use ubirch_cose_client_go.IdentityHandler.Steps.Created.{Created}
use ubirch_cose_client_go.IdentityHandler.Steps.Parallel.{
  Registering, Reach, begin, turn, start, onward, Reach-Created,
}
use ubirch_cose_client_go.Samples.SetupExamples.{handler}
use ubirch_cose_client_go.Samples.Transactions.{
  World, e, backend, Later, Inserted, Row, laws, sealing, converting,
}

abbrev empty : Setup World
empty = record {
  protocol = new_protocol (record { rows = []; inserted = []; next = 0 });
  created = [];
  started = [];
}

abbrev second : Bytes
second = 8 ∷ []

record Run : Type 0 where
  last : Registering World
  reach : Reach e backend handler Later empty last

abbrev both : Run
both = record { last = _; reach = onward (onward start (begin 3 (7 ∷ []))) (begin 3 second) }

abbrev steps : List ℕ → Run → Run
steps [] r = r
steps (n ∷ turns) r = steps turns (record { last = _; reach = onward r.reach (turn n) })

-- The second registration overtakes the first.
abbrev registered : Run
registered =
    steps
      (0 ∷ 1 ∷ 1 ∷ 0 ∷ 0 ∷ 1 ∷ 1 ∷ 0 ∷ 0 ∷ 1 ∷ 1 ∷ 1 ∷ 1 ∷ 1 ∷ 0 ∷ 0 ∷ 0 ∷ 0 ∷ 1 ∷ 1 ∷ 0 ∷ 0 ∷ [])
      both

has_returned :
    Memᴰ
      (returned (record { uid = 3; auth = second; result = ok (3 ∷ 5 ∷ []) }))
      registered.last.registrations
unfolding advance forward calling focus retry_steps store_steps register_steps create_steps
    in_transaction_steps init_identity_steps close_transaction check_identity_attributes_not_nil
    lookup insert new_protocol
has_returned = Memᴰ.tail (Memᴰ.head refl)

has_failed :
    Memᴰ
      (returned (record { uid = 3; auth = 7 ∷ []; result = err (text []) }))
      registered.last.registrations
unfolding advance forward calling focus retry_steps store_steps register_steps create_steps
    in_transaction_steps init_identity_steps close_transaction check_identity_attributes_not_nil
    lookup insert new_protocol
has_failed = Memᴰ.head refl

Reach-Created_example :
    Created e backend handler Later Inserted Row laws sealing converting 3 second
      registered.last.setup
Reach-Created_example =
    Reach-Created e backend handler Later Inserted Row laws sealing converting empty registered.last
      3 second (3 ∷ 5 ∷ []) registered.reach has_returned
