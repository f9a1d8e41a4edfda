-- ===== src/PrivateData.antt =====
-- Private values in the developer's own process (src/maivn/_internal/private_placeholders.py). A text
-- is a list of code points. The placeholder pattern and the names of keys come from the package
-- maivn_contracts and are parameters, and so is `str` of a value. A restoration's path is the list
-- of its segments; the code joins them, each escaped, with "/".
pub mod Restorations
mod Tests
use maivn.Prelude.{
  ℕ, suc, ◌+◌, String, Option, none, some, List, [], ◌∷◌, ◌++◌, ◌==◌, if◌then◌else◌, length,
}

pub data Segment : Type 0 where
  member : String → Segment
  position : ℕ → Segment

pub record PrivateValueRestoration : Type 0 where
  pub path : List Segment
  pub start : ℕ
  pub end : ℕ
  pub key : String

-- A match of the pattern: the text between the last match and this one, the match, and its group.
pub record Found {ℓ} (C : Type ℓ) : Type ℓ where
  pub prefix : List C
  pub token : List C
  pub group : List C

-- A payload: text, a mapping, a list, or anything else.
mutual
  pub data Value {ℓ} (C : Type ℓ) : Type ℓ where
    text : List C → Value C
    mapping : Entries C → Value C
    items : Items C → Value C
    other : ℕ → Value C

  pub data Entries {ℓ} (C : Type ℓ) : Type ℓ where
    no_entries : Entries C
    entry : String → Value C → Entries C → Entries C

  pub data Items {ℓ} (C : Type ℓ) : Type ℓ where
    no_items : Items C
    item : Value C → Items C → Items C

-- `mapping.get(key)`, with a key that is missing told apart from one whose value is `None`.
pub get {ℓ} : {V : Type ℓ} → String → List (String × Option V) → Option (Option V)
get key [] = none
get key ((k, v) ∷ data_) = if k == key then some v else get key data_

-- `index.setdefault`
set_default {ℓ} :
    {V : Type ℓ} → String → Option V → List (String × Option V) → List (String × Option V)
unfolding get
set_default key value index = elim (get key index) [
  | none ↦ index ++ (key, value) ∷ []
  | some v ↦ index
]

-- The first of the candidates that is there.
pub first_of {ℓ} : {V : Type ℓ} → List String → List (String × Option V) → Option (Option V)
unfolding get
first_of [] data_ = none
first_of (k ∷ keys) data_ = elim (get k data_) [ none ↦ first_of keys data_ | some v ↦ some v ]

-- What the code takes from its packages.
pub record Naming {ℓ κ} (C : Type ℓ) (V : Type κ) : Type (ℓ ⊔ κ) where
  pub scan : List C → List (Found C) × List C
  pub normalize : List C → String
  pub candidates : String → List String
  pub sanitize : String → String
  pub str : V → List C

module _ {ℓ κ} {C : Type ℓ} {V : Type κ} (naming : Naming C V) where
  -- `_sanitized_key_index`
  pub index_from : List (String × Option V) → List (String × Option V) → List (String × Option V)
  unfolding set_default
  index_from index [] = index
  index_from index ((k, v) ∷ data_) = index_from (set_default (naming.sanitize k) v index) data_

  sanitize_all : List String → List String
  sanitize_all [] = []
  sanitize_all (k ∷ keys) = naming.sanitize k ∷ sanitize_all keys

  -- `_lookup`: exact keys win.
  unfoldable pub lookup_key : List (String × Option V) → String → Option V
  unfolding first_of index_from sanitize_all
  lookup_key data_ key = elim (first_of (naming.candidates key) data_) [
    | some v ↦ v
    | none ↦ elim (first_of (sanitize_all (naming.candidates key)) (index_from [] data_)) [
      | some v ↦ v
      | none ↦ none
    ]
  ]

  pub replacement : List C → Option V → List C
  replacement token none = token
  replacement token (some v) = naming.str v

  span : List Segment → ℕ → String → List C → Option V → List PrivateValueRestoration
  span path start key restored none = []
  span path start key [] (some v) = []
  span path start key (c ∷ restored) (some v) =
      record { path = path; start = start; end = start + length (c ∷ restored); key = key } ∷ []

  -- The loop over the matches of one text, from an offset of the restored text on.
  pub walk_text :
      List (String × Option V)
      → List Segment
      → ℕ
      → List (Found C)
      → List C
      → List C × List PrivateValueRestoration
  unfolding replacement span
  walk_text data_ path offset [] rest = (rest, [])
  walk_text data_ path offset (f ∷ found) rest =
      let start = offset + length f.prefix in
      let name = naming.normalize f.group in
      let resolved = lookup_key data_ name in
      let restored = replacement f.token resolved in
      let (t, spans) = walk_text data_ path (start + length restored) found rest in
      (f.prefix ++ restored ++ t, span path start name restored resolved ++ spans)

  -- `PLACEHOLDER_PATTERN.sub(_replace, value)`
  pub sub : List (String × Option V) → List (Found C) → List C → List C
  unfolding replacement
  sub data_ [] rest = rest
  sub data_ (f ∷ found) rest =
      f.prefix
      ++ replacement f.token (lookup_key data_ (naming.normalize f.group))
      ++ sub data_ found rest

  mutual
    unfolding walk_text

    pub walk :
        List (String × Option V) → List Segment → Value C → Value C × List PrivateValueRestoration
    walk data_ path (text t) =
        let (t', spans) = walk_text data_ path 0 (naming.scan t).0 (naming.scan t).1 in
        (text t', spans)
    walk data_ path (mapping m) = let (m', spans) = walk_entries data_ path m in (mapping m', spans)
    walk data_ path (items l) = let (l', spans) = walk_items data_ path 0 l in (items l', spans)
    walk data_ path (other o) = (other o, [])

    pub walk_entries :
        List (String × Option V)
        → List Segment
        → Entries C
        → Entries C × List PrivateValueRestoration
    walk_entries data_ path no_entries = (no_entries, [])
    walk_entries data_ path (entry k v rest) =
        let (v', here) = walk data_ (path ++ member k ∷ []) v in
        let (rest', there) = walk_entries data_ path rest in (entry k v' rest', here ++ there)

    pub walk_items :
        List (String × Option V)
        → List Segment
        → ℕ
        → Items C
        → Items C × List PrivateValueRestoration
    walk_items data_ path i no_items = (no_items, [])
    walk_items data_ path i (item v rest) =
        let (v', here) = walk data_ (path ++ position i ∷ []) v in
        let (rest', there) = walk_items data_ path (suc i) rest in (item v' rest', here ++ there)

  mutual
    unfolding sub

    pub resolve_value : List (String × Option V) → Value C → Value C
    resolve_value data_ (text t) = text (sub data_ (naming.scan t).0 (naming.scan t).1)
    resolve_value data_ (mapping m) = mapping (resolve_entries data_ m)
    resolve_value data_ (items l) = items (resolve_items data_ l)
    resolve_value data_ (other o) = other o

    pub resolve_entries : List (String × Option V) → Entries C → Entries C
    resolve_entries data_ no_entries = no_entries
    resolve_entries data_ (entry k v rest) =
        entry k (resolve_value data_ v) (resolve_entries data_ rest)

    pub resolve_items : List (String × Option V) → Items C → Items C
    resolve_items data_ no_items = no_items
    resolve_items data_ (item v rest) = item (resolve_value data_ v) (resolve_items data_ rest)

  unfoldable pub resolve_private_placeholders_with_restorations :
      Value C → List (String × Option V) → Value C × List PrivateValueRestoration
  unfolding walk walk_entries walk_items
  resolve_private_placeholders_with_restorations value data_ = walk data_ [] value

  unfoldable pub resolve_private_placeholders : Value C → List (String × Option V) → Value C
  unfolding resolve_value resolve_entries resolve_items
  resolve_private_placeholders value [] = value
  resolve_private_placeholders value (p ∷ data_) = resolve_value (p ∷ data_) value
