-- ===== src/Samples/ProtocolExamples.antt =====
-- The stores and caches of a `Protocol` in the small world.
use ubirch_cose_client_go.Prelude.{◌≡◌, refl, ap, some, [], ◌∷◌, bytes_eq, nat_eq, ℕ}
use ubirch_cose_client_go.Dict.{lookup}
use ubirch_cose_client_go.Errors.{not_exist, ok, err, Result}
use ubirch_cose_client_go.Context.{Identity}
use ubirch_cose_client_go.Protocol.{retry, check_identity_attributes_not_nil, store_new_identity}
use ubirch_cose_client_go.Protocol.Retry.{Stops, after, retry-Stops}
use ubirch_cose_client_go.Protocol.Identities.{IsSealing}
use ubirch_cose_client_go.Samples.{World, env, identity, stored, world}

sealing : IsSealing env
sealing = record {
  decrypt-encrypt =
      λ key sealed w w' encrypted. let same : b'E' ∷ key ≡ sealed = cc encrypted in rw (← same);
}

abbrev nothing_stored : World
nothing_stored = record { rows = []; staged = []; busy = 0 }

abbrev being_stored : World
being_stored = record nothing_stored { staged = stored ∷ [] }

-- What an open transaction holds is there when it is committed.
kept :
    (given : Identity) (before : World)
    → given.uid ≡ 3
    → env.manager.store_new_identity (some tt) given before ≡ (ok tt, being_stored)
    → env.manager.get_identity 3 world ≡ (ok given, world)
unfolding lookup
kept given before same h =
    let staged : given ∷ before.staged ≡ stored ∷ [] =
      ap (λ (t : Result (Unit {0}) × World). t.1.staged) h in
    let only : stored ≡ given = cc staged in ap (λ (i : Identity). (ok i, world)) only

new_stored : store_new_identity env (some tt) identity nothing_stored ≡ (ok tt, being_stored)
unfolding store_new_identity check_identity_attributes_not_nil
new_stored = refl

-- Two of the next calls find no connection.
abbrev busy_world : World
busy_world = record world { busy = 2 }

retry-Stops_example :
    (k : ℕ) × Stops env (env.manager.get_identity 3) 4 k busy_world
    × (retry env 5 (env.manager.get_identity 3) (err not_exist) busy_world
        ≡ env.manager.get_identity 3 (after env (env.manager.get_identity 3) k busy_world))
retry-Stops_example = retry-Stops env (env.manager.get_identity 3) 4 (err not_exist) busy_world
