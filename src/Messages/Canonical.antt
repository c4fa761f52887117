-- ===== src/Messages/Canonical.antt =====
-- src/runtime-messages.ts, `canonical`: the text of a JSON value with sorted keys.
use Prim.Native.String.{◌++◌ as str_append}
use cantelop_sdk.Prelude.{
  arith, Bool-cases, inl, inr, ◌≡◌, ◌≢◌, refl, ap, ◌∙◌, String, Bool, true, false, List, [], ◌∷◌,
  if◌then◌else◌,
}

-- `leaf` is a number, a Boolean or `null`, by the text that `JSON.stringify` gives it, and `quoted` a
-- string by its quoted text; `undefined` has none.
mutual
  pub data Json : Type 0 where
    undefined : Json
    leaf : String → Json
    quoted : String → Json
    array : Items → Json
    object : Fields → Json

  pub data Items : Type 0 where
    nil : Items
    cons : Json → Items → Items

  pub data Fields : Type 0 where
    end : Fields
    field : String → Json → Fields → Fields

-- The order of `sort()` on keys, and the text that `JSON.stringify` gives a string.
pub record Format : Type 0 where
  pub precedes : String → String → Bool
  pub quote : String → String

-- What the order of keys is relied on for: it is a total order.
pub record IsOrder (f : Format) : Type 0 where
  pub total : (a b : String) → f.precedes a b ≡ false → f.precedes b a ≡ true
  pub antisym : (a b : String) → f.precedes a b ≡ true → f.precedes b a ≡ true → a ≡ b
  pub trans :
      (a b c : String) → f.precedes a b ≡ true → f.precedes b c ≡ true → f.precedes a c ≡ true

module _ (f : Format) where
  -- `Object.keys(value).sort()`, with each key's text beside it.
  insert_key : String × String → List (String × String) → List (String × String)
  insert_key (k, t) [] = (k, t) ∷ []
  insert_key (k, t) ((j, u) ∷ rest) =
      let later = insert_key (k, t) rest in
      if f.precedes k j then (k, t) ∷ (j, u) ∷ rest else (j, u) ∷ later

  sort_keys : List (String × String) → List (String × String)
  unfolding insert_key
  sort_keys [] = []
  sort_keys (x ∷ xs) = insert_key x (sort_keys xs)

  -- `join(",")`.
  join : List String → String
  join [] = ""
  join (t ∷ []) = t
  join (t ∷ u ∷ ts) = str_append t (str_append "," (join (u ∷ ts)))

  members : List (String × String) → List String
  members [] = []
  members ((k, t) ∷ rest) = str_append (f.quote k) (str_append ":" t) ∷ members rest

  braces : String → String
  braces t = str_append "{" (str_append t "}")

  brackets : String → String
  brackets t = str_append "[" (str_append t "]")

  mutual
    unfolding join members sort_keys

    pub canonical : Json → String
    canonical undefined = "null"
    canonical (leaf t) = t
    canonical (quoted t) = f.quote t
    canonical (array xs) = brackets (join (canonical_items xs))
    canonical (object fs) = braces (join (members (sort_keys (canonical_fields fs))))

    canonical_items : Items → List String
    canonical_items nil = []
    canonical_items (cons x xs) = canonical x ∷ canonical_items xs

    canonical_fields : Fields → List (String × String)
    canonical_fields end = []
    canonical_fields (field k v fs) = (k, canonical v) ∷ canonical_fields fs

  -- Two objects with the same members in another order.
  pub data Reorders : Fields → Fields → Type 0 where
    same : {fs : Fields} → Reorders fs fs
    keep :
        {k : String} {v : Json} {fs gs : Fields}
        → Reorders fs gs
        → Reorders (field k v fs) (field k v gs)
    swap :
        {k j : String} {v w : Json} {fs : Fields}
        → k ≢ j
        → Reorders (field k v (field j w fs)) (field j w (field k v fs))
    after : {fs gs hs : Fields} → Reorders fs gs → Reorders gs hs → Reorders fs hs

  insert_key_comm :
      (o : IsOrder f) (k j t u : String) (xs : List (String × String))
      → k ≢ j
      → insert_key (k, t) (insert_key (j, u) xs) ≡ insert_key (j, u) (insert_key (k, t) xs)
  unfolding insert_key
  insert_key_comm o k j t u [] d = ground (arith, o.total k j, o.antisym k j)
  insert_key_comm o k j t u ((i, w) ∷ xs) d = elim (Bool-cases (f.precedes k i)) [
    | inl ki ↦ elim (Bool-cases (f.precedes j i)) [
      | inl ji ↦ rw (ki, ji) (ground (arith, o.total k j, o.antisym k j))
      | inr ij ↦ rw (ki, ij) (ground (arith, o.trans j k i))
    ]
    | inr ik ↦ elim (Bool-cases (f.precedes j i)) [
      | inl ji ↦ rw (ik, ji) (ground (arith, o.trans k j i))
      | inr ij ↦ rw (ik, ij) (ground (arith, insert_key_comm o k j t u xs d))
    ]
  ]

  canonical_fields-Reorders :
      {fs gs : Fields}
      → IsOrder f
      → Reorders fs gs
      → sort_keys (canonical_fields fs) ≡ sort_keys (canonical_fields gs)
  unfolding sort_keys canonical_fields
  canonical_fields-Reorders o same = refl
  canonical_fields-Reorders o (keep {k} {v} r) =
      ap (insert_key (k, canonical v)) (canonical_fields-Reorders o r)
  canonical_fields-Reorders o (swap {k} {j} {v} {w} {fs} d) =
      insert_key_comm o k j (canonical v) (canonical w) (sort_keys (canonical_fields fs)) d
  canonical_fields-Reorders o (after r s) =
      canonical_fields-Reorders o r ∙ canonical_fields-Reorders o s

  -- The canonical text of an object does not depend on the order of its members.
  pub canonical-Reorders :
      {fs gs : Fields} → IsOrder f → Reorders fs gs → canonical (object fs) ≡ canonical (object gs)
  unfolding canonical
  canonical-Reorders o r = ap (λ xs. braces (join (members xs))) (canonical_fields-Reorders o r)
