-- ===== src/Tests/Values.antt =====
-- Values and dictionaries as trees, which fill the interface of the envelopes.
use thorium_frugal.Base.{
  arith, not, ◌==◌, ◌≡◌, true, ◌∷◌, All, select, select-All, refl, Bool, [], ◌++◌, Option, none,
  some, Bytes, str_eq, str_eq_refl, if_true, if_false, if◌then◌else◌,
}
use thorium_frugal.Text.Find.{Free}
use thorium_frugal.Envelope.{ℤ, ValueApi, IsMap}

mutual
  pub data Value : Type 0 where
    string : Bytes → Value
    int : ℤ → Value
    boolean : Bool → Value
    dict : Dict → Value

  pub data Dict : Type 0 where
    empty : Dict
    set : Dict → Bytes → Value → Dict

abbrev find : Dict → Bytes → Option Value
find empty j = none
find (set d k v) j = if str_eq k j then some v else find d j

abbrev if_string : Value → Option Bytes
if_string (string s) = some s
if_string _ = none

abbrev if_int : Value → Option ℤ
if_int (int n) = some n
if_int _ = none

abbrev if_boolean : Value → Option Bool
if_boolean (boolean b) = some b
if_boolean _ = none

abbrev if_dict : Value → Option Dict
if_dict (dict d) = some d
if_dict _ = none

-- The texts of a dictionary, one behind the other, without line ends, for `write_json`.
abbrev texts : Dict → Bytes
texts empty = []
texts (set d k (string s)) = texts d ++ (k ++ s)
texts (set d k v) = texts d ++ k

abbrev write : Dict → Bytes
write d = select (λ b. not (b == b'\n')) (texts d)

abbrev pub tree_api : ValueApi Value Dict
tree_api = record {
  string = string;
  int = int;
  boolean = boolean;
  dict = dict;
  empty = empty;
  set = set;
  find = find;
  if_string = if_string;
  if_int = if_int;
  if_boolean = if_boolean;
  if_dict = if_dict;
  write_json = write;
}

pub tree_api-IsMap : IsMap Value Dict tree_api
tree_api-IsMap = record {
  find_set = λ d k v. if_true (str_eq k k) (some v) (find d k) (str_eq_refl k);
  find_other = λ d k j v h. if_false (str_eq k j) (some v) (find d j) h;
  string_back = λ s. refl;
  int_back = λ n. refl;
  boolean_back = λ b. refl;
  dict_back = λ d. refl;
}

no_newlines : (s : Bytes) → All (λ b. not (b == b'\n') ≡ true) s → Free (λ b. b == b'\n') s
no_newlines [] h = tt
no_newlines (c ∷ s) (hc, h) = (ground arith, no_newlines s h)

pub tree_api-Free : (d : Dict) → Free (λ b. b == b'\n') (tree_api.write_json d)
tree_api-Free d = no_newlines (write d) (select-All (λ b. not (b == b'\n')) (texts d))
