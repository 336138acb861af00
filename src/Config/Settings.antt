-- ===== src/Config/Settings.antt =====
-- The settings of a configuration: those that have no default, those that have one, and those of the
-- database.
use mathlib.Core.Path.{subst}
use ubirch_cose_client_go.Prelude.{
  ℕ, ◌≡◌, ◌≢◌, ◌⊎◌, String, refl, ap, inl, inr, Bool-cases, Option-cases, some, [], Bytes, length,
  ◌==◌, nat_eq, bytes_eq, bytes_beq_iff, arith,
}
use ubirch_cose_client_go.Codec.Integers.{atoi, minutes}
use ubirch_cose_client_go.Errors.{Result, ok, Result-cases}
use ubirch_cose_client_go.Config.{
  Config, Files, secret_length, or_default, check_mandatory, db_param, set_db_params,
}

-- The settings that have no default.
pub record IsMandatory (c : Config) : Type 0 where
  pub secret : length c.secret_bytes ≡ secret_length
  pub register_auth : c.register_auth ≢ []
  pub server : c.certificate_server ≢ []
  pub server_key : c.certificate_server_pub_key ≢ []

pub check_mandatory-IsMandatory : (c : Config) → check_mandatory c ≡ ok tt → IsMandatory c
unfolding check_mandatory
check_mandatory-IsMandatory c h =
    ground
      (arith, bytes_beq_iff c.certificate_server [], bytes_beq_iff c.certificate_server_pub_key [])

-- A setting that was given is taken as it is, and one that was not is the default.
abbrev pub Fills : Bytes → Bytes → Bytes → Type 0
Fills given default value = ((given ≡ []) × (value ≡ default)) ⊎ ((given ≢ []) × (value ≡ given))

pub or_default-Fills : (given default : Bytes) → Fills given default (or_default given default)
or_default-Fills given default = elim (Bool-cases (given == [])) [
  | inl empty ↦ inl ((bytes_beq_iff given []).0 empty, ground arith)
  | inr there ↦ inr (λ none. ground (arith, bytes_beq_iff given []), ground arith)
]

-- A database parameter is its default, or what its text says.
abbrev pub Sets : Bytes → ℕ → (ℕ → ℕ) → ℕ → Type 0
Sets value default convert n =
    ((value ≡ []) × (n ≡ default)) ⊎ ((i : ℕ) × (atoi value ≡ some i) × (n ≡ convert i))

db_param-Sets :
    (f : Files) (what : String) (value : Bytes) (default : ℕ) (convert : ℕ → ℕ) (n : ℕ)
    → db_param f what value default convert ≡ ok n
    → Sets value default convert n
db_param-Sets f what value default convert n h = elim (Bool-cases (value == [])) [
  | inl empty ↦ inl ((bytes_beq_iff value []).0 empty, ground arith)
  | inr given ↦ elim (Option-cases (atoi value)) [
    | inl failed ↦ ground arith
    | inr (i, parsed) ↦ inr (i, parsed, ground arith)
  ]
]

-- The parameters of the database connections.
pub record IsSized (c : Config) : Type 0 where
  pub max_open : Sets c.db_max_open_conns 10 (λ i. i) c.db_params.max_open_conns
  pub max_idle : Sets c.db_max_idle_conns 10 (λ i. i) c.db_params.max_idle_conns
  pub lifetime : Sets c.db_conn_max_lifetime (minutes 10) minutes c.db_params.conn_max_lifetime
  pub idle_time : Sets c.db_conn_max_idle_time (minutes 1) minutes c.db_params.conn_max_idle_time

pub set_db_params-IsSized :
    (f : Files) (c c' : Config)
    → set_db_params f c ≡ (ok tt, c')
    → IsSized c' × (c' ≡ record c { db_params = c'.db_params })
unfolding set_db_params
set_db_params-IsSized f c c' h =
    elim (Result-cases
      (db_param f "failed to set DB parameter MaxOpenConns" c.db_max_open_conns 10 (λ i. i))) [
        | inl (x, failed) ↦ ground arith
        | inr (i, first) ↦
            elim (Result-cases (
              db_param f "failed to set DB parameter MaxIdleConns" c.db_max_idle_conns 10
                (λ i. i))) [
                  | inl (x, failed) ↦ ground arith
                  | inr (j, second) ↦
                      elim (Result-cases (
                        db_param f "failed to set DB parameter ConnMaxLifetime"
                          c.db_conn_max_lifetime (minutes 10) minutes)) [
                            | inl (x, failed) ↦ ground arith
                            | inr (k, third) ↦
                                elim (Result-cases (
                                  db_param f "failed to set DB parameter ConnMaxIdleTime"
                                    c.db_conn_max_idle_time (minutes 1) minutes)) [
                                      | inl (x, failed) ↦ ground arith
                                      | inr (l, fourth) ↦
                                          let same : record c {
                                            db_params = record {
                                              max_open_conns = i;
                                              max_idle_conns = j;
                                              conn_max_lifetime = k;
                                              conn_max_idle_time = l;
                                            };
                                          }
                                              ≡ c' =
                                            ap (λ (t : Result (Unit {0}) × Config). t.1)
                                              (rw (first, second, third, fourth) at h) in
                                          (
                                            subst IsSized same (record {
                                              max_open =
                                                  db_param-Sets f _ c.db_max_open_conns 10 (λ i. i)
                                                    i first;
                                              max_idle =
                                                  db_param-Sets f _ c.db_max_idle_conns 10 (λ i. i)
                                                    j second;
                                              lifetime =
                                                  db_param-Sets f _ c.db_conn_max_lifetime
                                                    (minutes 10) minutes k third;
                                              idle_time =
                                                  db_param-Sets f _ c.db_conn_max_idle_time
                                                    (minutes 1) minutes l fourth;
                                            }),
                                            subst
                                                (λ (d : Config).
                                                  d ≡ record c { db_params = d.db_params })
                                                same refl,
                                          )
                                    ]
                          ]
                ]
      ]
