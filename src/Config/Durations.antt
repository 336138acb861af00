-- ===== src/Config/Durations.antt =====
-- The durations of the database parameters, and where 64 bits do not hold them.
use ubirch_cose_client_go.Prelude.{ℕ, ◌*◌, ◌≤◌, ◌<◌, ◌≡◌, ◌↔◌, ap, ◌∙◌, inl, inr, Bytes, arith}
use mathlib.Core.Path.{subst}
use ubirch_cose_client_go.Codec.Integers.{decimal, minutes, int_sign}
use ubirch_cose_client_go.Codec.Integers.Decimal.{atoi-decimal, decimal-ne-nil}
use ubirch_cose_client_go.Errors.{ok}
use ubirch_cose_client_go.Config.{Config, Files, set_db_params}
use ubirch_cose_client_go.Config.Settings.{Sets, set_db_params-IsSized}

-- The most minutes that a `time.Duration` holds.
abbrev max_minutes : ℕ
max_minutes = 153722867

-- A duration that is the minutes of the text, and not negative.
abbrev pub IsMinutes : ℕ → ℕ → Type 0
IsMinutes n duration = (duration ≡ n * 60000000000) × (duration < int_sign)

minutes-IsMinutes : (n : ℕ) → IsMinutes n (minutes n) ↔ (n ≤ max_minutes)
unfolding minutes
minutes-IsMinutes n = ground arith

Sets-decimal :
    (n default duration : ℕ)
    → n < int_sign
    → Sets (decimal n) default minutes duration
    → duration ≡ minutes n
Sets-decimal n default duration small (inl (empty, _)) = absurd (decimal-ne-nil n empty)
Sets-decimal n default duration small (inr (i, read, set)) = ground (arith, atoi-decimal n small)

IsMinutes-minutes :
    (n : ℕ) (text : Bytes) (default duration : ℕ)
    → n < int_sign
    → text ≡ decimal n
    → Sets text default minutes duration
    → IsMinutes n duration ↔ (n ≤ max_minutes)
IsMinutes-minutes n text default duration small written sets =
    let same =
      Sets-decimal n default duration small
        (subst (λ (t : Bytes). Sets t default minutes duration) written sets) in
    rw same (minutes-IsMinutes n)

-- Where a lifetime of `n` minutes and an idle time of `m`, both below 2^63, are written as numbers
-- without a sign, and the parameters are set without an error, each of the two is the duration that
-- was asked for exactly where its number is at most 153722867.
pub set_db_params-IsMinutes :
    (f : Files) (c c' : Config) (n m : ℕ)
    → set_db_params f c ≡ (ok tt, c')
    → n < int_sign
    → m < int_sign
    → c.db_conn_max_lifetime ≡ decimal n
    → c.db_conn_max_idle_time ≡ decimal m
    → (IsMinutes n c'.db_params.conn_max_lifetime ↔ (n ≤ max_minutes))
      × (IsMinutes m c'.db_params.conn_max_idle_time ↔ (m ≤ max_minutes))
set_db_params-IsMinutes f c c' n m h small_n small_m lifetime idle_time =
    let (sized, frame) = set_db_params-IsSized f c c' h in
    let text_n : c'.db_conn_max_lifetime ≡ decimal n =
      ap (λ (d : Config). d.db_conn_max_lifetime) frame ∙ lifetime in
    let text_m : c'.db_conn_max_idle_time ≡ decimal m =
      ap (λ (d : Config). d.db_conn_max_idle_time) frame ∙ idle_time in
    (
      IsMinutes-minutes n _ (minutes 10) _ small_n text_n sized.lifetime,
      IsMinutes-minutes m _ (minutes 1) _ small_m text_m sized.idle_time,
    )
