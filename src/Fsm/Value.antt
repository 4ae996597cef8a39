-- ===== src/Fsm/Value.antt =====
-- The Python values that a workflow's variables hold, and the text operations on them.
use Prim.Native.String.{count}
use package.text.Mathlib.Text.{starts_with}
use model_weaver.Base.{
  ℕ, zero, suc, ◌-◌, String, ◌+s◌, Bool, true, false, not, Option, none, some, List, [], ◌∷◌,
  nat_beq, ◌==◌, if◌then◌else◌, text_eq,
}
use model_weaver.Base.Dict
use model_weaver.Base.Dict.{Dict}
use model_weaver.Base.Int.{ℤ, pos, negsuc}

-- Floating-point numbers do not occur.
mutual
  pub data Value : Type 0 where
    null : Value
    bool : Bool → Value
    int : ℤ → Value
    text : String → Value
    arr : Items → Value
    obj : Fields → Value

  pub data Fields : Type 0 where
    end : Fields
    field : String → Value → Fields → Fields

  pub data Items : Type 0 where
    nil : Items
    cons : Value → Items → Items

abbrev pub Vars : Type 0
Vars = Dict String Value

unfoldable pub items : Items → List Value
items nil = []
items (cons v vs) = v ∷ items vs

unfoldable pub fields : Fields → Vars
fields end = []
fields (field k v fs) = (k, v) ∷ fields fs

-- What the code uses of Python's own library.
pub record Python : Type 0 where
  -- str(v) of a number, a list or a dict
  pub repr : Value → String
  -- a == b
  pub same : Value → Value → Bool
  -- s.lower()
  pub lower : String → String
  -- float(s) < float(t), nothing if one of the two raises
  pub float_lt : String → String → Option Bool
  -- int(v), nothing if it raises
  pub int_of : Value → Option ℤ
  -- items.strip().strip("{}").strip()
  pub strip_braces : String → String
  -- json.dumps(out, ensure_ascii=False)
  pub dumps : Vars → String
  -- the regular expression and the loops of `_strip_code_fences`
  pub strip_code_fences : String → String

-- bool(v)
unfoldable pub truthy : Value → Bool
truthy null = false
truthy (bool b) = b
truthy (int (pos n)) = not (nat_beq n 0)
truthy (int (negsuc n)) = true
truthy (text s) = not (s == "")
truthy (arr nil) = false
truthy (arr (cons v vs)) = true
truthy (obj end) = false
truthy (obj (field k v fs)) = true

-- str(v)
unfoldable pub str : Python → Value → String
str py null = "None"
str py (bool true) = "True"
str py (bool false) = "False"
str py (text s) = s
str py v = py.repr v

-- d.get(k, "")
unfoldable pub get_or_empty : Vars → String → Value
get_or_empty d k = elim (Dict.lookup d k) [ none ↦ text "" | some v ↦ v ]

-- `x or y`, of texts that may be missing
abbrev pub or_text : Option String → String → String
or_text none t = t
or_text (some s) t = if s == "" then t else s

-- A missing or empty text is falsy.
abbrev pub nonempty : Option String → Option String
nonempty none = none
nonempty (some s) = if s == "" then none else some s

-- s[:n]
unfoldable pub first_chars : ℕ → String → String
first_chars zero s = ""
first_chars (suc n) String.[] = ""
first_chars (suc n) (String.◌∷◌ c s) = String.◌∷◌ c (first_chars n s)

-- s.replace(old, new) for a non-empty `old`, with the characters of a match left to skip
unfoldable pub replace_from : (old new : String) → (skip : ℕ) → String → String
replace_from old new skip String.[] = ""
replace_from old new (suc k) (String.◌∷◌ c s) = replace_from old new k s
replace_from old new zero (String.◌∷◌ c s) =
    let hit = new +s replace_from old new (count old - 1) s in
    let miss = String.◌∷◌ c (replace_from old new 0 s) in
    if starts_with (String.◌∷◌ c s) old then hit else miss

-- FSMInterpreter._resolve
unfoldable pub resolve : Python → Vars → String → String
unfolding replace_from str
resolve py [] value = value
resolve py ((k, v) ∷ variables) value =
    resolve py variables (replace_from ("{{" +s k +s "}}") (str py v) 0 value)
