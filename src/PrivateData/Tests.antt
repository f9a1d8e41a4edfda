-- ===== src/PrivateData/Tests.antt =====
-- Texts of numbers, in which 0 is a placeholder.
use maivn.Prelude.{ℕ, zero, suc, ◌≡◌, refl, ap, String, Option, some, List, [], ◌∷◌, All}
use maivn.PrivateData.{
  member, Found, Value, text, mapping, entry, no_entries, Naming, walk_text,
  resolve_private_placeholders, resolve_private_placeholders_with_restorations,
}
use maivn.PrivateData.Restorations.{
  rejoin, resolve_with_restorations-agrees, Exact, restorations-Exact,
}

abbrev add_plain : ℕ → List (Found ℕ) × List ℕ → List (Found ℕ) × List ℕ
add_plain c ([], rest) = ([], c ∷ rest)
add_plain c (f ∷ found, rest) = (record f { prefix = c ∷ f.prefix } ∷ found, rest)

abbrev zero_scan : List ℕ → List (Found ℕ) × List ℕ
zero_scan [] = ([], [])
zero_scan (zero ∷ t) =
    (record { prefix = []; token = 0 ∷ []; group = 0 ∷ [] } ∷ (zero_scan t).0, (zero_scan t).1)
zero_scan (suc c ∷ t) = add_plain (suc c) (zero_scan t)

rejoin-add_plain :
    (c : ℕ) (o : List (Found ℕ) × List ℕ)
    → rejoin (add_plain c o).0 (add_plain c o).1 ≡ c ∷ rejoin o.0 o.1
rejoin-add_plain c ([], rest) = refl
rejoin-add_plain c (f ∷ found, rest) = refl

rejoin-zero_scan : (t : List ℕ) → rejoin (zero_scan t).0 (zero_scan t).1 ≡ t
rejoin-zero_scan [] = refl
rejoin-zero_scan (zero ∷ t) = ap (λ l. 0 ∷ l) (rejoin-zero_scan t)
rejoin-zero_scan (suc c ∷ t) = rw (rejoin-add_plain (suc c) (zero_scan t), rejoin-zero_scan t) refl

abbrev a_naming : Naming ℕ (List ℕ)
a_naming = record {
  scan = zero_scan;
  normalize = λ _. "claim_id";
  candidates = λ k. k ∷ [];
  sanitize = λ k. k;
  str = λ v. v;
}

abbrev some_data : List (String × Option (List ℕ))
some_data = ("claim_id", some (7 ∷ 8 ∷ [])) ∷ []

abbrev a_payload : Value ℕ
a_payload = mapping (entry "note" (text (5 ∷ 0 ∷ 6 ∷ [])) no_entries)

resolve_with_restorations-agrees_example :
    (resolve_private_placeholders_with_restorations a_naming a_payload some_data).0
    ≡ resolve_private_placeholders a_naming a_payload some_data
resolve_with_restorations-agrees_example =
    resolve_with_restorations-agrees a_naming rejoin-zero_scan a_payload some_data

restorations-Exact_example :
    All
      (Exact a_naming some_data
        (walk_text a_naming some_data
          (member "note" ∷ [])
          0
          (zero_scan (5 ∷ 0 ∷ 6 ∷ [])).0
          (zero_scan (5 ∷ 0 ∷ 6 ∷ [])).1).0)
      (walk_text a_naming some_data
        (member "note" ∷ [])
        0
        (zero_scan (5 ∷ 0 ∷ 6 ∷ [])).0
        (zero_scan (5 ∷ 0 ∷ 6 ∷ [])).1).1
restorations-Exact_example =
    restorations-Exact a_naming some_data (member "note" ∷ []) (5 ∷ 0 ∷ 6 ∷ [])
