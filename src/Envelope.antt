-- ===== src/Envelope.antt =====
-- What both envelopes of cognitia_adapter/protocol share. `base::Value`, `base::Value::Dict` and
-- `base::JSONWriter` are given by their operations; IsMap has what base/values.h documents of them.
pub mod Observation
pub mod Content
pub mod Reading
pub mod Acceptance
pub mod RoundTrip
use mathlib.Core.Option
use thorium_frugal.Base.{
  ℕ, ◌-◌, ◌%◌, ◌^◌, ◌≡◌, Bool, false, List, [], ◌∷◌, Option, some, Bytes, codes, str_eq, ltb,
  if◌then◌else◌,
}

-- An `int`.
pub data ℤ : Type 0 where
  pos negsuc : ℕ → ℤ

-- `static_cast<int>` of a `size_t`.
unfoldable pub to_int : ℕ → ℤ
to_int n = let m = n % 2 ^ 32 in if ltb m (2 ^ 31) then pos m else negsuc (2 ^ 32 - 1 - m)

module _ (Value Dict : Type 0) where
  -- The constructors of a value by type, `Set` and `Find` of a dictionary, and the `GetIf…` of a value.
  pub record ValueApi : Type 0 where
    pub string : Bytes → Value
    pub int : ℤ → Value
    pub boolean : Bool → Value
    pub dict : Dict → Value
    pub empty : Dict
    pub set : Dict → Bytes → Value → Dict
    pub find : Dict → Bytes → Option Value
    pub if_string : Value → Option Bytes
    pub if_int : Value → Option ℤ
    pub if_boolean : Value → Option Bool
    pub if_dict : Value → Option Dict
    pub write_json : Dict → Bytes

  -- A dictionary holds what was set last under each key, and a value what it was made of.
  pub record IsMap (api : ValueApi) : Type 0 where
    pub find_set : (d : Dict) (k : Bytes) (v : Value) → api.find (api.set d k v) k ≡ some v
    pub find_other :
        (d : Dict) (k j : Bytes) (v : Value)
        → str_eq k j ≡ false
        → api.find (api.set d k v) j ≡ api.find d j
    pub string_back : (s : Bytes) → api.if_string (api.string s) ≡ some s
    pub int_back : (n : ℤ) → api.if_int (api.int n) ≡ some n
    pub boolean_back : (b : Bool) → api.if_boolean (api.boolean b) ≡ some b
    pub dict_back : (d : Dict) → api.if_dict (api.dict d) ≡ some d

module _ {Value Dict : Type 0} (api : ValueApi Value Dict) where
  -- One `Set` after the other.
  abbrev pub set_all : Dict → List (Bytes × Value) → Dict
  set_all d [] = d
  set_all d ((k, v) ∷ rest) = set_all (api.set d k v) rest

  -- A new dictionary and its `Set` calls, in their order.
  abbrev pub dict_of : List (Bytes × Value) → Dict
  dict_of = set_all api.empty

  -- The members of `browser`.
  abbrev pub browser_members : List (Bytes × Value)
  browser_members =
      (codes "name", api.string (codes "Lean Thorium"))
      ∷ (codes "version", api.string (codes "138.0.7204.306"))
      ∷ []

  -- The members of the root; `schema_version` has its initialiser.
  abbrev pub root_members : Bytes → Bytes → Dict → List (Bytes × Value)
  root_members id created_at payload =
      (codes "id", api.string id)
      ∷ (codes "schema_version", api.string (codes "1.0.0"))
      ∷ (codes "created_at", api.string created_at)
      ∷ (codes "source_id", api.string (codes "thorium_browser_adapter"))
      ∷ (codes "metadata", api.dict api.empty)
      ∷ (codes "payload", api.dict payload)
      ∷ []
