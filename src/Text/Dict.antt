-- ===== src/Text/Dict.antt =====
-- Dictionaries and sets whose keys are texts, in the order in which the keys came.
use zas.Prelude.{Option, none, some, List, [], ◌∷◌, ◌++◌, map, if◌then◌else◌}
use zas.Text.Base.{Text, text_eq, is_one_of}

module _ {A : Type 0} where
  -- `d.get(k)`
  unfoldable pub get : Text → List (Text × A) → Option A
  unfolding text_eq
  get k [] = none
  get k (e ∷ d) = if text_eq e.0 k then some e.1 else get k d

  -- `d[k] = v`
  unfoldable pub put : Text → A → List (Text × A) → List (Text × A)
  unfolding text_eq
  put k v [] = (k, v) ∷ []
  put k v (e ∷ d) = let rest = put k v d in if text_eq e.0 k then (k, v) ∷ d else e ∷ rest

  abbrev pub keys : List (Text × A) → List Text
  keys d = map (λ e. e.0) d

-- `s.add(t)`
unfoldable pub add_name : Text → List Text → List Text
unfolding is_one_of
add_name t s = if is_one_of t s then s else s ++ t ∷ []

-- `s | set(ts)`
unfoldable pub add_names : List Text → List Text → List Text
unfolding add_name
add_names s [] = s
add_names s (t ∷ ts) = add_names (add_name t s) ts
