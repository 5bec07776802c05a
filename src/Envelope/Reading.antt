-- ===== src/Envelope/Reading.antt =====
-- A reader of the dictionaries of the envelopes, by `Find` and the `GetIf…` of a value.
use mathlib.Core.Option
use thorium_frugal.Base.{
  ℕ, ◌≡◌, refl, ap, ◌∙◌, Bool, true, false, List, [], ◌∷◌, Option, none, some, Bytes, str_eq,
  str_eq_sound, if◌then◌else◌,
}
use thorium_frugal.Envelope.{ℤ, pos, negsuc, ValueApi, IsMap, set_all, dict_of}

-- The last value under a key, or the one given.
unfoldable pub last_of {ℓ} : {A : Type ℓ} → List (Bytes × A) → Bytes → Option A → Option A
last_of [] j found = found
last_of ((k, v) ∷ rest) j found = last_of rest j (if str_eq k j then some v else found)

infixl 5 ◌>>=◌
abbrev pub ◌>>=◌ {ℓ κ} : {A : Type ℓ} {B : Type κ} → Option A → (A → Option B) → Option B
none >>= f = none
some a >>= f = f a

infixl 5 ◌>>◌
abbrev pub ◌>>◌ {ℓ} : {B : Type ℓ} → Option (Unit {0}) → Option B → Option B
m >> k = m >>= λ _. k

abbrev pub require : Bool → Option (Unit {0})
require true = some tt
require false = none

-- The first of the values that is printed as the text.
abbrev pub named {ℓ} : {A : Type ℓ} → (A → Bytes) → List A → Bytes → Option A
named print [] s = none
named print (x ∷ xs) s = if str_eq (print x) s then some x else named print xs s

abbrev pub number_of : ℤ → Option ℕ
number_of (pos n) = some n
number_of (negsuc n) = none

module _ {Value Dict : Type 0} (api : ValueApi Value Dict) where
  unfoldable pub get_string : Dict → Bytes → Option Bytes
  get_string d k = Option.bind (api.find d k) api.if_string

  unfoldable pub get_int : Dict → Bytes → Option ℤ
  get_int d k = Option.bind (api.find d k) api.if_int

  unfoldable pub get_boolean : Dict → Bytes → Option Bool
  get_boolean d k = Option.bind (api.find d k) api.if_boolean

  unfoldable pub get_dict : Dict → Bytes → Option Dict
  get_dict d k = Option.bind (api.find d k) api.if_dict

  -- The member is this text.
  abbrev pub require_text : Dict → Bytes → Bytes → Option (Unit {0})
  require_text d k expected = get_string d k >>= λ s. require (str_eq s expected)

  module _ (laws : IsMap Value Dict api) where
    find-set :
        (d : Dict) (k j : Bytes) (v : Value)
        → api.find (api.set d k v) j ≡ (if str_eq k j then some v else api.find d j)
    find-set d k j v = go (str_eq k j) refl
      where
        go :
            (b : Bool)
            → str_eq k j ≡ b
            → api.find (api.set d k v) j ≡ (if b then some v else api.find d j)
        go true e = rw (str_eq_sound k j e) (laws.find_set d j v)
        go false e = laws.find_other d k j v e

    find-set_all :
        (d : Dict) (kvs : List (Bytes × Value)) (j : Bytes)
        → api.find (set_all api d kvs) j ≡ last_of kvs j (api.find d j)
    unfolding last_of
    find-set_all d [] j = refl
    find-set_all d ((k, v) ∷ rest) j =
        find-set_all (api.set d k v) rest j ∙ ap (last_of rest j) (find-set d k j v)

    -- A key that was set is found with its value, read by its type.
    module _ (kvs : List (Bytes × Value)) (k : Bytes) where
      found :
          (v : Value)
          → last_of kvs k (api.find api.empty k) ≡ some v
          → api.find (dict_of api kvs) k ≡ some v
      found v e = find-set_all api.empty kvs k ∙ e

      pub get_string-dict_of :
          (s : Bytes)
          → last_of kvs k (api.find api.empty k) ≡ some (api.string s)
          → get_string (dict_of api kvs) k ≡ some s
      unfolding get_string Option.bind
      get_string-dict_of s e = rw (found _ e) (laws.string_back s)

      pub get_int-dict_of :
          (n : ℤ)
          → last_of kvs k (api.find api.empty k) ≡ some (api.int n)
          → get_int (dict_of api kvs) k ≡ some n
      unfolding get_int Option.bind
      get_int-dict_of n e = rw (found _ e) (laws.int_back n)

      pub get_boolean-dict_of :
          (b : Bool)
          → last_of kvs k (api.find api.empty k) ≡ some (api.boolean b)
          → get_boolean (dict_of api kvs) k ≡ some b
      unfolding get_boolean Option.bind
      get_boolean-dict_of b e = rw (found _ e) (laws.boolean_back b)

      pub get_dict-dict_of :
          (d : Dict)
          → last_of kvs k (api.find api.empty k) ≡ some (api.dict d)
          → get_dict (dict_of api kvs) k ≡ some d
      unfolding get_dict Option.bind
      get_dict-dict_of d e = rw (found _ e) (laws.dict_back d)

      -- A key that was not set is not found, where the empty dictionary has none.
      pub get_dict-none :
          last_of kvs k (api.find api.empty k) ≡ none → get_dict (dict_of api kvs) k ≡ none
      unfolding get_dict Option.bind
      get_dict-none e = rw (find-set_all api.empty kvs k ∙ e) refl
