-- ===== src/Server/Tests/Replies.antt =====
-- Runs of the model of the Encode functions on concrete inputs.
use global_cache_adaptor.Common.{
  ℕ, ◌≡◌, refl, ap, arith, Bool, true, false, List, [], ◌∷◌, ◌++◌, Option, none, some, ◌==◌,
  if◌then◌else◌, length, take, drop, get_elem?,
}
use mathlib.Core.Option
use global_cache_adaptor.Common.Bytes.{Bytes}
use global_cache_adaptor.Common.Int.{pos, neg}
use global_cache_adaptor.Common.Number.{to_u32}
use global_cache_adaptor.Server.Replies.{
  ReplyOp, Encoding, omap_vals, set_op_result, encode_omap_getvals, encode_result,
}
use global_cache_adaptor.Server.Replies.Frame.{EndsLocal, encode_result-EndsLocal}
use global_cache_adaptor.Server.Replies.Decoding.{Decoding, read_vals, encode_omap_getvals-read}

-- A number in one byte, and a text behind its length.
abbrev plain : Encoding
plain = record {
  num32 = λ n. n ∷ [];
  num64 = λ n. n ∷ [];
  time = λ t. to_u32 t ∷ [];
  flag = λ b. (if b then 1 else 0) ∷ [];
  text = λ t. length t ∷ t;
  text_map = λ m. length m ∷ [];
  extents = λ m. length m ∷ [];
  snap_response = λ n cs. n ∷ length cs ∷ [];
}

abbrev cut : Bytes → Option (ℕ × Bytes)
cut [] = none
cut (n ∷ s) = some (n, s)

abbrev cut_text : Bytes → Option (Bytes × Bytes)
cut_text [] = none
cut_text (n ∷ s) = some (take n s, drop n s)

abbrev cut_flag : Bytes → Option (Bool × Bytes)
cut_flag [] = none
cut_flag (n ∷ s) = some (n == 1, s)

cut_text-append : (t s : Bytes) → cut_text (length t ∷ (t ++ s)) ≡ some (t, s)
cut_text-append [] s = refl
cut_text-append (c ∷ t) s = ap (λ q. Option.map (λ r. (c ∷ r.0, r.1)) q) (cut_text-append t s)

plain-Decoding : Decoding plain
plain-Decoding = record {
  get_num32 = cut;
  get_text = cut_text;
  get_flag = cut_flag;
  num32_read = λ n s h. refl;
  text_read = λ t s h. cut_text-append t s;
  flag_read = λ b s. by_flag b s;
}
  where
    by_flag : (b : Bool) (s : Bytes) → cut_flag ((if b then 1 else 0) ∷ s) ≡ some (b, s)
    by_flag true s = refl
    by_flag false s = refl

abbrev no_reply : ReplyOp
no_reply = record { rval = pos 0; outdata = [] }

encode_result-EndsLocal_example :
    EndsLocal 1 (no_reply ∷ no_reply ∷ []) (
      encode_result plain
        (omap_vals (some ((7 ∷ [], 8 ∷ []) ∷ [])))
        (pos 1)
        (some (no_reply ∷ no_reply ∷ [])))
    × EndsLocal 1
        (no_reply ∷ no_reply ∷ [])
        (set_op_result (pos 1) (neg 2) (some (no_reply ∷ no_reply ∷ [])))
encode_result-EndsLocal_example =
    encode_result-EndsLocal plain (omap_vals (some ((7 ∷ [], 8 ∷ []) ∷ []))) (neg 2) (pos 1)
      (no_reply ∷ no_reply ∷ [])

encode_omap_getvals-read_example :
    (ops' : List ReplyOp) × (o' : ReplyOp) × (encode_omap_getvals plain
        (some ((7 ∷ [], 8 ∷ 9 ∷ []) ∷ []))
        (pos 1)
        (some (no_reply ∷ no_reply ∷ []))
      ≡ some ops')
    × (get_elem? ops' 1 ≡ some o')
    × (read_vals plain plain-Decoding o'.outdata ≡ some ((7 ∷ [], 8 ∷ 9 ∷ []) ∷ [], false))
encode_omap_getvals-read_example =
    encode_omap_getvals-read plain plain-Decoding ((7 ∷ [], 8 ∷ 9 ∷ []) ∷ []) (pos 1)
      (no_reply ∷ no_reply ∷ []) no_reply refl refl
      ((omega arith, omega arith), (omega arith, omega arith), tt) (omega arith)
