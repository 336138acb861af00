-- ===== src/Samples/Disk.antt =====
-- A disk in memory, and a format of key files that can be read back.
use ubirch_cose_client_go.Prelude.{
  ℕ, zero, suc, ◌≡◌, ◌≤◌, refl, ap, inl, inr, Option-cases, none, some, [], ◌∷◌, ◌++◌, Bytes,
  bytes_eq, bytes_beq_iff, ◌==◌, length, length-append, take, drop, if◌then◌else◌, arith,
}
use ubirch_cose_client_go.Dict.{Dict, lookup, insert, lookup-insert}
use ubirch_cose_client_go.Errors.{text, Result, ok, err}
use ubirch_cose_client_go.Samples.Encoder.{take-append, drop-append}
use ubirch_cose_client_go.FileManager.{Os, present, missing, KeyFormat}
use ubirch_cose_client_go.FileManager.Durable.{IsDisk, IsJson, IsUuidText}

unfoldable pub remove : Bytes → Dict Bytes Bytes → Dict Bytes Bytes
remove k [] = []
remove k ((j, v) ∷ m) = let rest = remove k m in if j == k then rest else (j, v) ∷ rest

lookup-remove :
    (j k : Bytes) (m : Dict Bytes Bytes)
    → lookup j (remove k m) ≡ (if k == j then none else lookup j m)
unfolding lookup remove
lookup-remove j k [] = ground arith
lookup-remove j k ((i, v) ∷ m) =
    ground (arith, bytes_beq_iff k j, bytes_beq_iff i k, bytes_beq_iff i j, lookup-remove j k m)

unfoldable pub rename : Bytes → Bytes → Dict Bytes Bytes → Result (Unit {0}) × Dict Bytes Bytes
rename from to w = elim (lookup from w) [
  | none ↦ (err (text []), w)
  | some content ↦ (ok tt, insert to content (remove from w))
]

abbrev pub os : Os (Dict Bytes Bytes)
os = record {
  stat = λ file w. elim (lookup file w) [ none ↦ missing | some content ↦ present ];
  read_file = λ file w. elim (lookup file w) [ none ↦ err (text []) | some content ↦ ok content ];
  rename = rename;
  write_file = λ file content w. (ok tt, insert file content w);
}

rename-eq-ok :
    (from to other : Bytes) (w w' : Dict Bytes Bytes)
    → rename from to w ≡ (ok tt, w')
    → lookup other w'
      ≡ (if to == other then lookup from w else if from == other then none else lookup other w)
unfolding rename
rename-eq-ok from to other w w' h = elim (Option-cases (lookup from w)) [
  | inl gone ↦ ground arith
  | inr (content, there) ↦
      ground (arith, lookup-insert other to content (remove from w), lookup-remove other from w)
]

pub disk : IsDisk os (λ w. w)
disk = record {
  finds = λ file content w there. (ground (arith, there), ground (arith, there));
  misses = λ file w gone. ground (arith, gone);
  renames = rename-eq-ok;
  writes = λ file content other w w' h. ground (arith, lookup-insert other file content w);
}

-- Each entry behind the lengths of its key and its value.
unfoldable pub encode : Dict Bytes Bytes → Bytes
encode [] = []
encode ((k, v) ∷ m) = length k ∷ length v ∷ (k ++ (v ++ encode m))

unfoldable pub entries : ℕ → Bytes → Dict Bytes Bytes
entries zero s = []
entries (suc n) [] = []
entries (suc n) (a ∷ []) = []
entries (suc n) (a ∷ b ∷ s) = (take a s, take b (drop a s)) ∷ entries n (drop b (drop a s))

entries-encode : (n : ℕ) (m : Dict Bytes Bytes) → length (encode m) ≤ n → entries n (encode m) ≡ m
unfolding encode entries
entries-encode zero [] h = refl
entries-encode (suc n) [] h = refl
entries-encode zero ((k, v) ∷ m) h = absurd (omega arith)
entries-encode (suc n) ((k, v) ∷ m) h =
    rw
      (
        take-append k (v ++ encode m),
        drop-append k (v ++ encode m),
        take-append v (encode m),
        drop-append v (encode m),
      )
      (ap (λ (r : Dict Bytes Bytes). (k, v) ∷ r)
        (entries-encode n m
          (omega (arith, length-append k (v ++ encode m), length-append v (encode m)))))

-- The text of a UUID begins with the letter 0.
abbrev pub format : KeyFormat
format = record {
  encode = λ keys. ok (encode keys);
  decode = λ content keys. (ok tt, entries (length content) content);
  join = λ dir name. dir ++ name;
  uuid_string = λ uid. 48 ∷ uid ∷ [];
}

pub json : IsJson format
json = record {
  decode-encode = λ keys content h.
      let same : encode keys ≡ content = cc h in
      (
        keys,
        rw (← same) (
            ap (λ (r : Dict Bytes Bytes). (ok tt, r))
              (entries-encode (length (encode keys)) keys (omega arith))),
        λ k. refl,
      );
}

pub uuid_text : IsUuidText format
uuid_text = record { injective = λ a b h. cc h; plain = λ a t h. ground arith }
