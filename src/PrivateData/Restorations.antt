-- ===== src/PrivateData/Restorations.antt =====
-- The two ways to resolve a payload agree, and each restoration addresses what was put in.
use mathlib.Core.Path.{subst}
use mathlib.Core.List.{append_assoc}
use maivn.Prelude.{
  ℕ, ◌+◌, ◌≡◌, refl, sym, ap, ◌∙◌, String, Option, none, some, List, [], ◌∷◌, ◌++◌, arith, length,
  length-append, All, All-append,
}
use maivn.PrivateData.{
  Segment, member, position, PrivateValueRestoration, Found, Value, text, mapping, items, other,
  Entries, no_entries, entry, Items, no_items, item, first_of, get, Naming, index_from,
  sanitize_all, lookup_key, replacement, span, walk_text, sub, walk, walk_entries, walk_items,
  resolve_value, resolve_entries, resolve_items, resolve_private_placeholders_with_restorations,
  resolve_private_placeholders,
}

-- The matches and the rest, put together again.
abbrev pub rejoin {ℓ} : {C : Type ℓ} → List (Found C) → List C → List C
rejoin [] rest = rest
rejoin (f ∷ found) rest = f.prefix ++ f.token ++ rejoin found rest

first_of-empty {ℓ} : {V : Type ℓ} (keys : List String) → first_of {V = V} keys [] ≡ none
unfolding first_of get
first_of-empty [] = refl
first_of-empty (k ∷ keys) = first_of-empty keys

module _ {ℓ κ} {C : Type ℓ} {V : Type κ} (naming : Naming C V) where
  lookup_key-empty : (key : String) → lookup_key naming [] key ≡ none
  unfolding lookup_key index_from
  lookup_key-empty key =
      rw
        (
          lookup_key,
          first_of-empty {V = V} (naming.candidates key),
          first_of-empty {V = V} (sanitize_all naming (naming.candidates key)),
        )
        refl

  sub-empty :
      (found : List (Found C)) (rest : List C) → sub naming [] found rest ≡ rejoin found rest
  unfolding sub replacement
  sub-empty [] rest = refl
  sub-empty (f ∷ found) rest =
      rw (lookup_key-empty (naming.normalize f.group), sub-empty found rest) refl

  walk_text-sub :
      (data_ : List (String × Option V)) (path : List Segment) (found : List (Found C)) (offset : ℕ)
      (rest : List C)
      → (walk_text naming data_ path offset found rest).0 ≡ sub naming data_ found rest
  unfolding walk_text sub
  walk_text-sub data_ path [] offset rest = refl
  walk_text-sub data_ path (f ∷ found) offset rest =
      let restored =
        replacement naming f.token (lookup_key naming data_ (naming.normalize f.group)) in
      ap (λ t. f.prefix ++ restored ++ t)
        (walk_text-sub data_ path found (offset + length f.prefix + length restored) rest)

  mutual
    unfolding walk resolve_value walk_entries walk_items resolve_entries resolve_items

    walk-resolve :
        (data_ : List (String × Option V)) (path : List Segment) (v : Value C)
        → (walk naming data_ path v).0 ≡ resolve_value naming data_ v
    walk-resolve data_ path (text t) =
        ap text (walk_text-sub data_ path (naming.scan t).0 0 (naming.scan t).1)
    walk-resolve data_ path (mapping m) = ap mapping (walk-resolve_entries data_ path m)
    walk-resolve data_ path (items l) = ap items (walk-resolve_items data_ path 0 l)
    walk-resolve data_ path (other o) = refl

    walk-resolve_entries :
        (data_ : List (String × Option V)) (path : List Segment) (m : Entries C)
        → (walk_entries naming data_ path m).0 ≡ resolve_entries naming data_ m
    walk-resolve_entries data_ path no_entries = refl
    walk-resolve_entries data_ path (entry k v rest) =
        rw (walk-resolve data_ (path ++ member k ∷ []) v, walk-resolve_entries data_ path rest) refl

    walk-resolve_items :
        (data_ : List (String × Option V)) (path : List Segment) (i : ℕ) (l : Items C)
        → (walk_items naming data_ path i l).0 ≡ resolve_items naming data_ l
    walk-resolve_items data_ path i no_items = refl
    walk-resolve_items data_ path i (item v rest) =
        rw (walk-resolve data_ (path ++ position i ∷ []) v, walk-resolve_items data_ path _ rest)
          refl

  module _ (splits : (t : List C) → rejoin (naming.scan t).0 (naming.scan t).1 ≡ t) where
    mutual
      unfolding resolve_value resolve_entries resolve_items

      resolve_value-empty : (v : Value C) → resolve_value naming [] v ≡ v
      resolve_value-empty (text t) =
          ap text (sub-empty (naming.scan t).0 (naming.scan t).1 ∙ splits t)
      resolve_value-empty (mapping m) = ap mapping (resolve_entries-empty m)
      resolve_value-empty (items l) = ap items (resolve_items-empty l)
      resolve_value-empty (other o) = refl

      resolve_entries-empty : (m : Entries C) → resolve_entries naming [] m ≡ m
      resolve_entries-empty no_entries = refl
      resolve_entries-empty (entry k v rest) =
          rw (resolve_value-empty v, resolve_entries-empty rest) refl

      resolve_items-empty : (l : Items C) → resolve_items naming [] l ≡ l
      resolve_items-empty no_items = refl
      resolve_items-empty (item v rest) = rw (resolve_value-empty v, resolve_items-empty rest) refl

    -- If the pattern's matches and the text around them make up the text, resolving a payload with
    -- restorations gives the same payload as resolving it without, also where there is no private
    -- data.
    pub resolve_with_restorations-agrees :
        (value : Value C) (data_ : List (String × Option V))
        → (resolve_private_placeholders_with_restorations naming value data_).0
          ≡ resolve_private_placeholders naming value data_
    unfolding resolve_private_placeholders_with_restorations resolve_private_placeholders
    resolve_with_restorations-agrees value [] = walk-resolve [] [] value ∙ resolve_value-empty value
    resolve_with_restorations-agrees value (p ∷ data_) = walk-resolve (p ∷ data_) [] value

  -- The code points that a restoration names are those of the value that its key resolves to.
  pub record Exact (data_ : List (String × Option V)) (restored : List C)
      (r : PrivateValueRestoration) : Type (ℓ ⊔ κ) where
    pub value : V
    pub before : List C
    pub after : List C
    pub split : restored ≡ before ++ naming.str value ++ after
    pub start : r.start ≡ length before
    pub end : r.end ≡ length before + length (naming.str value)
    pub resolves : lookup_key naming data_ r.key ≡ some value

  span-Exact :
      (data_ : List (String × Option V)) (path : List Segment) (name : String) (start : ℕ)
      (before after restored whole : List C) (v : V)
      → restored ≡ naming.str v
      → lookup_key naming data_ name ≡ some v
      → start ≡ length before
      → whole ≡ before ++ naming.str v ++ after
      → All (Exact data_ whole) (span naming path start name restored (some v))
  unfolding span
  span-Exact data_ path name start before after [] whole v e h n w = tt
  span-Exact data_ path name start before after (c ∷ restored) whole v e h n w = (
    record {
      value = v;
      before = before;
      after = after;
      split = w;
      start = n;
      end = omega (arith, n, ap length e);
      resolves = h;
    },
    tt,
  )

  replacement-Exact :
      (data_ : List (String × Option V)) (path : List Segment) (name : String) (start : ℕ)
      (before token after whole : List C) (o : Option V)
      → lookup_key naming data_ name ≡ o
      → start ≡ length before
      → whole ≡ before ++ replacement naming token o ++ after
      → All (Exact data_ whole) (span naming path start name (replacement naming token o) o)
  unfolding replacement span
  replacement-Exact data_ path name start before token after whole none h n w = tt
  replacement-Exact data_ path name start before token after whole (some v) h n w =
      span-Exact data_ path name start before after (naming.str v) whole v refl h n w

  walk_text-Exact :
      (data_ : List (String × Option V)) (path : List Segment) (found : List (Found C))
      (rest before : List C) (offset : ℕ)
      → offset ≡ length before
      → All
          (Exact data_ (before ++ (walk_text naming data_ path offset found rest).0))
          (walk_text naming data_ path offset found rest).1
  unfolding walk_text
  walk_text-Exact data_ path [] rest before offset e = tt
  walk_text-Exact data_ path (f ∷ found) rest before offset e =
      let name = naming.normalize f.group in
      let resolved = lookup_key naming data_ name in
      let restored = replacement naming f.token resolved in
      let start = offset + length f.prefix in
      let tail = walk_text naming data_ path (start + length restored) found rest in
      let moved = append_assoc before (f.prefix ++ restored) tail.0 in
      let whole = before ++ (f.prefix ++ restored ++ tail.0) in
      let here =
        replacement-Exact data_ path name start (before ++ f.prefix) f.token tail.0 whole resolved
          refl (omega (arith, e, length-append before f.prefix))
          (sym (ap (λ l. l ++ tail.0) (append_assoc before f.prefix restored) ∙ moved)) in
      let there =
        walk_text-Exact data_ path found rest (before ++ (f.prefix ++ restored))
          (start + length restored)
          (omega (
            arith,
            e,
            length-append before (f.prefix ++ restored),
            length-append f.prefix restored,
          )) in
      All-append (Exact data_ whole) (span naming path start name restored resolved) tail.1 here
        (subst (λ t. All (Exact data_ t) tail.1) moved there)

  -- Each restoration of a text addresses, in the restored text, exactly the code points of the
  -- value that its key resolves to.
  pub restorations-Exact :
      (data_ : List (String × Option V)) (path : List Segment) (t : List C)
      → All
          (Exact data_ (walk_text naming data_ path 0 (naming.scan t).0 (naming.scan t).1).0)
          (walk_text naming data_ path 0 (naming.scan t).0 (naming.scan t).1).1
  restorations-Exact data_ path t =
      walk_text-Exact data_ path (naming.scan t).0 (naming.scan t).1 [] 0 refl
