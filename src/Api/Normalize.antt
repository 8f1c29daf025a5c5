-- ===== src/Api/Normalize.antt =====
-- internal/api/http/offerings_link.go: the responses as each grading strategy expects them, and the
-- buckets in which they are counted.
use Prim.Native.String.{◌++◌ as ◌<>◌}
use mindengage_lms.Prelude.{
  ℕ, ℤ, String, ◌&&◌, ◌||◌, Option, none, some, List, [], ◌∷◌, str_eq, if◌then◌else◌,
}
use mindengage_lms.Strings.{Unicode, trim_space, to_lower, is_empty}
use mindengage_lms.Strings.Split.{split_on, fields, join, sort_strings}
use mindengage_lms.Float.{Float64}
use mindengage_lms.Exam.Models.{Value, num, str, arr, strings, Values, nil, cons}

-- What the texts of numbers and of other values are made with: the conversions between int64 and
-- float64, strconv.FormatInt, strconv.FormatFloat(f, 'g', -1, 64) and json.Marshal.
pub record Texts (F : Type 0) : Type 0 where
  pub to_int : F → ℤ
  pub of_int : ℤ → F
  pub format_int : ℤ → String
  pub format_float : F → String
  pub marshal : Value F → String

module _ {F : Type 0} where
  -- The first text among the elements.
  unfoldable pub first_text : Values F → Option String
  first_text nil = none
  first_text (cons (str s) vs) = some s
  first_text (cons _ vs) = first_text vs

  unfoldable pub texts_of_values : Values F → List String
  texts_of_values nil = []
  texts_of_values (cons (str s) vs) = s ∷ texts_of_values vs
  texts_of_values (cons _ vs) = texts_of_values vs

unfoldable pub trimmed_parts : List String → List String
unfolding trim_space
trimmed_parts [] = []
trimmed_parts (p ∷ ps) =
    let rest = trimmed_parts ps in if is_empty (trim_space p) then rest else trim_space p ∷ rest

module _ {F : Type 0} ⦃fl : Float64 F⦄ (u : Unicode) (texts : Texts F) where
  unfoldable pub trim_float : F → String
  trim_float f =
      let n = texts.to_int f in
      let back = texts.of_int n in
      if fl.le f back && fl.le back f then texts.format_int n else texts.format_float f

  unfoldable pub to_text : Value F → String
  unfolding trim_float
  to_text (str s) = s
  to_text (num f) = trim_float f
  to_text v = texts.marshal v

  abbrev str_or : Value F → Option String → Value F
  str_or v none = v
  str_or v (some s) = str s

  abbrev first_of : Value F → List String → Value F
  first_of v [] = v
  first_of v (s ∷ ss) = str s

  abbrev normalize_single : Value F → Value F
  normalize_single (arr vs) = str_or (arr vs) (first_text vs)
  normalize_single (strings ss) = first_of (strings ss) ss
  normalize_single (num f) = str (trim_float f)
  normalize_single v = v

  abbrev normalize_multi : Value F → Value F
  normalize_multi (arr vs) = strings (texts_of_values vs)
  normalize_multi (str s) = strings (trimmed_parts (split_on 0x2c s))
  normalize_multi v = v

  abbrev normalize_numeric : Value F → Value F
  normalize_numeric (num f) = str (trim_float f)
  normalize_numeric v = v

  abbrev normalize_short : Value F → Value F
  normalize_short (arr vs) = str_or (str "") (first_text vs)
  normalize_short v = str (to_text v)

  unfoldable pub normalize_for_type : (q_type : String) → Value F → Value F
  unfolding first_text texts_of_values trimmed_parts to_text
  normalize_for_type q_type v =
      let t = to_lower u (trim_space q_type) in
      if str_eq t "mcq_single" || str_eq t "true_false"
      then normalize_single v
      else if str_eq t "mcq_multi"
      then normalize_multi v
      else if str_eq t "numeric"
      then normalize_numeric v
      else if str_eq t "short_word"
      then normalize_short v
      else v

abbrev first_bytes : ℕ → String → String
first_bytes ℕ.zero s = ""
first_bytes (ℕ.suc n) String.[] = ""
first_bytes (ℕ.suc n) (String.◌∷◌ c s) = String.◌∷◌ c (first_bytes n s)

module _ (u : Unicode) where
  unfoldable pub norm_text : String → String
  unfolding trim_space to_lower fields join
  norm_text s = first_bytes 64 (join " " (fields (trim_space (to_lower u s))))

  abbrev option_keys : List String → List String
  option_keys [] = []
  option_keys (o ∷ os) = ("opt:" <> o) ∷ option_keys os

  abbrev set_keys : List String → List String
  set_keys [] = []
  set_keys (o ∷ os) = ("set:" <> join "," (o ∷ os)) ∷ option_keys (o ∷ os)

  abbrev single_keys : {F : Type 0} → Value F → List String
  single_keys (str s) = if is_empty s then [] else s ∷ []
  single_keys v = []

  abbrev multi_keys : {F : Type 0} → Value F → List String
  multi_keys (strings ss) = set_keys (sort_strings ss)
  multi_keys (arr vs) = set_keys (sort_strings (texts_of_values vs))
  multi_keys v = []

  abbrev text_keys : {F : Type 0} → Value F → List String
  text_keys (str s) = if is_empty s then [] else ("text:" <> norm_text s) ∷ []
  text_keys v = []

  -- The counters that a response adds to, beside that of all responses.
  unfoldable pub bucket_keys : {F : Type 0} → (q_type : String) → Value F → List String
  unfolding norm_text
  bucket_keys q_type resp =
      let t = to_lower u q_type in
      if str_eq t "mcq_single" || str_eq t "true_false"
      then single_keys resp
      else if str_eq t "mcq_multi"
      then multi_keys resp
      else if str_eq t "short_word" || str_eq t "numeric"
      then text_keys resp
      else []
