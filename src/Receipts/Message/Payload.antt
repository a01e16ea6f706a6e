-- ===== src/Receipts/Message/Payload.antt =====
-- receipts/message.py: the fields that `to_bytes` writes, and their text in JSON.
use home_budget_pipeline.Prelude.{
  ℕ, zero, suc, ◌+◌, ◌-◌, ◌/◌, ◌%◌, Bool, true, false, ◌&&◌, Option, none, some, List, [], ◌∷◌,
  ◌++◌, leb, ltb, ◌==◌, is_some, if◌then◌else◌, ◌<◌, ◌≡◌, refl, inl, inr, Bool-cases, arith,
}
use home_budget_pipeline.Prelude.Int.{pos}
use home_budget_pipeline.Prelude.Text.{Text, codes}
use home_budget_pipeline.Receipts.Message.{
  JsonValue, null, integer, string, OcrMode, fresh, auto, mode_name, ReceiptMessage,
}

-- A value of `asdict(self)`.
pub data FieldValue : Type 0 where
  none_value : FieldValue
  number : ℕ → FieldValue
  text : Text → FieldValue

abbrev pub json_of : FieldValue → JsonValue
json_of none_value = null
json_of (number n) = integer (pos n)
json_of (text s) = string s

abbrev pub text_value : Option Text → FieldValue
text_value none = none_value
text_value (some s) = text s

abbrev pub number_value : Option ℕ → FieldValue
number_value none = none_value
number_value (some n) = number n

abbrev pub Payload : Type 0
Payload = List (Text × FieldValue)

abbrev pub batch_fields : ReceiptMessage → Payload
batch_fields m =
    if is_some m.batch_id
    then (codes "batch_id", text_value m.batch_id)
      ∷ (codes "batch_index", number_value m.batch_index)
      ∷ (codes "batch_total", number_value m.batch_total)
      ∷ []
    else []

abbrev pub mode_fields : OcrMode → Payload
mode_fields fresh = []
mode_fields auto = (codes "ocr_mode", text (mode_name auto)) ∷ []

abbrev pub request_fields : ReceiptMessage → Payload
request_fields m = if m.version == 1 then [] else (codes "request_id", text_value m.request_id) ∷ []

-- The fields that `to_bytes` keeps, in the order of their names.
unfoldable pub payload : ReceiptMessage → Payload
payload m =
    (codes "attempt", number m.attempt)
    ∷ (batch_fields m
        ++ (mode_fields m.ocr_mode
            ++ (request_fields m
                ++ ((codes "source_reference", text m.source_reference)
                    ∷ (codes "source_sha256", text m.source_sha256)
                    ∷ (codes "version", number m.version)
                    ∷ []))))

-- `str(n)`: the digits of n before `out`; the fuel is more than n.
unfoldable pub digits : ℕ → ℕ → Text → Text
digits zero n out = out
digits (suc fuel) n out =
    let rest = digits fuel (n / 10) ((b'0' + n % 10) ∷ out) in
    if ltb n 10 then (b'0' + n) ∷ out else rest

abbrev pub decimal : ℕ → Text
decimal n = digits (suc n) n []

abbrev pub hex_digit : ℕ → ℕ
hex_digit d = if ltb d 10 then b'0' + d else b'a' + (d - 10)

abbrev pub unicode_escape : ℕ → Text
unicode_escape c =
    b'\\'
    ∷ b'u'
    ∷ hex_digit (c / 4096)
    ∷ hex_digit (c / 256 % 16)
    ∷ hex_digit (c / 16 % 16)
    ∷ hex_digit (c % 16)
    ∷ []

-- One code of a string, in ASCII.
unfoldable pub escape : ℕ → Text
escape c =
    if c == 34
    then 92 ∷ 34 ∷ []
    else if c == 92
    then 92 ∷ 92 ∷ []
    else if c == 10
    then 92 ∷ b'n' ∷ []
    else if c == 13
    then 92 ∷ b'r' ∷ []
    else if c == 9
    then 92 ∷ b't' ∷ []
    else if c == 12
    then 92 ∷ b'f' ∷ []
    else if c == 8
    then 92 ∷ b'b' ∷ []
    else if leb 32 c && leb c 126
    then c ∷ []
    else if ltb c 0x10000
    then unicode_escape c
    else unicode_escape (0xd800 + (c - 0x10000) / 1024)
      ++ unicode_escape (0xdc00 + (c - 0x10000) % 1024)

unfoldable pub escaped : Text → Text
unfolding escape
escaped [] = []
escaped (c ∷ s) = escape c ++ escaped s

unfoldable pub dumps_value : FieldValue → Text
unfolding escaped digits
dumps_value none_value = codes "null"
dumps_value (number n) = decimal n
dumps_value (text s) = 34 ∷ (escaped s ++ 34 ∷ [])

-- The fields, with a comma before each but the first.
unfoldable pub dumps_fields : Bool → Payload → Text
unfolding dumps_value escaped
dumps_fields first [] = codes "}"
dumps_fields first ((key, v) ∷ fields) =
    (if first then [] else codes ",")
    ++ (dumps_value (text key) ++ (b':' ∷ (dumps_value v ++ dumps_fields false fields)))

-- `json.dumps(payload, sort_keys=True, separators=(',', ':'))`
unfoldable pub dumps : Payload → Text
unfolding dumps_fields
dumps fields = codes "{" ++ dumps_fields true fields

zero_bound : {n : ℕ} → n < 0 → ⊥
zero_bound h = omega arith

tenth_below : (n f : ℕ) → ltb n 10 ≡ false → n < suc f → n / 10 < f
tenth_below n f e h = ground arith

-- More fuel than n writes the same digits.
digits-fuel : (f g n : ℕ) (out : Text) → n < f → n < g → digits f n out ≡ digits g n out
unfolding digits
digits-fuel zero g n out hf hg = absurd (zero_bound hf)
digits-fuel (suc f) zero n out hf hg = absurd (zero_bound hg)
digits-fuel (suc f) (suc g) n out hf hg = elim (Bool-cases (ltb n 10)) [
  | inl e ↦ rw e refl
  | inr e ↦ rw e (digits-fuel f g (n / 10) _ (tenth_below n f e hf) (tenth_below n g e hg))
]
