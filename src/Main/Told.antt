-- ===== src/Main/Told.antt =====
-- What the arguments of the program say.
use mathlib.Core.List.{Memᴰ}
use ubirch_cose_client_go.Prelude.{
  sym, ap, ◌∙◌, ◌≡◌, ◌≢◌, ◌⊎◌, ◌↔◌, refl, inl, inr, true, false, Bool-cases, List, [], ◌∷◌, ◌++◌,
  Bytes, All, ◌==◌, bytes_eq, bytes_beq_iff, arith,
}
use ubirch_cose_client_go.Errors.{codes}
use ubirch_cose_client_go.Main.{Arguments, migrate_arg, read_args, arguments}

abbrev AreMigrate : List Bytes → Type 0
AreMigrate args = All (λ arg. arg ≡ codes "--migrate") args

-- The directory is the last argument that is not `--migrate`.
pub record IsLast (args : List Bytes) (dir : Bytes) : Type 0 where
  pub before : List Bytes
  pub after : List Bytes
  pub parts : args ≡ before ++ (dir ∷ after)
  pub other : dir ≢ codes "--migrate"
  pub rest : AreMigrate after

-- The arguments behind the name of the program.
abbrev pub behind : List Bytes → List Bytes
behind [] = []
behind (program ∷ args) = args

-- A migration is asked for where `--migrate` is among the arguments, and the directory is the last of
-- the others, or empty if there are none.
pub record IsTold (os_args : List Bytes) (a : Arguments) : Type 0 where
  pub migrates : (a.migrate ≡ true) ↔ Memᴰ (codes "--migrate") (behind os_args)
  pub directory :
      (AreMigrate (behind os_args) × (a.config_dir ≡ [])) ⊎ IsLast (behind os_args) a.config_dir

IsLast-cons : (arg dir : Bytes) (args : List Bytes) → IsLast args dir → IsLast (arg ∷ args) dir
IsLast-cons arg dir args l = record {
  before = arg ∷ l.before;
  after = l.after;
  parts = ap (λ (rest : List Bytes). arg ∷ rest) l.parts;
  other = l.other;
  rest = l.rest;
}

read_args-directory :
    (args : List Bytes) (a : Arguments)
    → (AreMigrate args × ((read_args args a).config_dir ≡ a.config_dir))
      ⊎ IsLast args (read_args args a).config_dir
unfolding read_args
read_args-directory [] a = inl (tt, refl)
read_args-directory (arg ∷ args) a = elim (Bool-cases (arg == migrate_arg)) [
  | inl migrate ↦
      rw (migrate, read_args)
        (elim (read_args-directory args (record a { migrate = true })) [
          | inl (all, same) ↦ inl (((bytes_beq_iff arg migrate_arg).0 migrate, all), same)
          | inr last ↦ inr (IsLast-cons arg _ args last)
        ])
  | inr dir ↦
      rw (dir, read_args)
        (elim (read_args-directory args (record a { config_dir = arg })) [
          | inl (all, same) ↦ inr (record {
            before = [];
            after = args;
            parts = ap (λ (d : Bytes). d ∷ args) (sym same);
            other = λ h. ground (arith, sym same ∙ h, bytes_beq_iff arg migrate_arg);
            rest = all;
          })
          | inr last ↦ inr (IsLast-cons arg _ args last)
        ])
]

read_args-migrates :
    (args : List Bytes) (a : Arguments)
    → ((read_args args a).migrate ≡ true) ↔ ((a.migrate ≡ true) ⊎ Memᴰ (codes "--migrate") args)
unfolding read_args
read_args-migrates [] a = (inl, λ h. elim h [ inl set ↦ set | inr there ↦ elim there [ ] ])
read_args-migrates (arg ∷ args) a = elim (Bool-cases (arg == migrate_arg)) [
  | inl migrate ↦
      let here : Memᴰ (codes "--migrate") (arg ∷ args) =
        Memᴰ.head (sym ((bytes_beq_iff arg migrate_arg).0 migrate)) in
      rw (migrate, read_args)
        (λ h. inr here, λ h. (read_args-migrates args (record a { migrate = true })).1 (inl refl))
  | inr dir ↦
      let step = read_args-migrates args (record a { config_dir = arg }) in
      rw (dir, read_args)
        (
          λ h. elim (step.0 h) [ inl set ↦ inl set | inr there ↦ inr (Memᴰ.tail there) ],
          λ h. elim h [
            | inl set ↦ step.1 (inl set)
            | inr (Memᴰ.head same) ↦ ground (arith, sym same, bytes_beq_iff arg migrate_arg)
            | inr (Memᴰ.tail there) ↦ step.1 (inr there)
          ],
        )
]

pub arguments-IsTold : (os_args : List Bytes) → IsTold os_args (arguments os_args)
unfolding arguments
arguments-IsTold [] = record {
  migrates = (λ h. cc h, λ there. elim there [ ]);
  directory = inl (tt, refl);
}
arguments-IsTold (program ∷ args) =
    let m = read_args-migrates args (record { config_dir = []; migrate = false }) in
    record {
      migrates =
          (λ h. elim (m.0 h) [ inl set ↦ cc set | inr there ↦ there ], λ there. m.1 (inr there));
      directory = read_args-directory args (record { config_dir = []; migrate = false });
    }
