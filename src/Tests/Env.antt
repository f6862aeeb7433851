-- ===== src/Tests/Env.antt =====
-- Stand-ins for the external packages, by which the hypotheses about them are seen to be possible:
-- IPv4 addresses in dotted decimal, and a toy shell whose quoting shifts the bytes.
use mathlib.Core.Path.{ap₂}
use linstor_gateway.Base.{
  ℕ, ◌+◌, ◌-◌, ◌≡◌, refl, sym, ap, ◌∙◌, true, false, Option, none, some, List, [], ◌∷◌, ◌++◌, map,
  arith, leb, ◌==◌, if◌then◌else◌,
}
use linstor_gateway.Base.Int.{pos, negsuc}
use linstor_gateway.Base.Lists.{all, any-append}
use linstor_gateway.Base.Text.{Text, codes, split, join, NoByte, has_byte, is_empty}
use linstor_gateway.Base.Text.Laws.{split-join}
use linstor_gateway.Base.Decimal.{itoa, atoi}
use linstor_gateway.External.{External, Ip, ip4, ip6}
use linstor_gateway.Reactor.Agent.Writable.{
  is_plain_byte, is_plain, Word, bare, assign, word_name, written, meant, AllPlain, ends_well,
  ShellLaws,
}

unfoldable pub decode : Text → Text
decode [] = []
decode (c ∷ s) =
    let rest = decode s in
    if leb 256 c then (c - 256) ∷ rest else if c == b'\'' then rest else c ∷ rest

unfoldable pub shift : Text → Text
shift [] = b'\'' ∷ []
shift (c ∷ s) = (c + 256) ∷ shift s

unfoldable pub split_words : Text → Option (List Text)
unfolding decode
split_words s = if is_empty s then some [] else some (map decode (split b' ' s))

abbrev dotted : Text → Text
dotted bytes = join b'.' (map (λ b. itoa (pos b)) bytes)

byte_of : Text → ℕ
byte_of s = elim (atoi s) [ none ↦ 0 | some z ↦ elim z [ pos n ↦ n | negsuc n ↦ 0 ] ]

unfoldable pub print_ip : Ip → Text
print_ip (ip4 bytes) = dotted bytes
print_ip (ip6 bytes) = codes "::"

read_four : List Text → Option Ip
unfolding byte_of
read_four (a ∷ b ∷ c ∷ d ∷ []) = some (ip4 (byte_of a ∷ byte_of b ∷ byte_of c ∷ byte_of d ∷ []))
read_four _ = none

unfoldable pub read_ip : Text → Option Ip
unfolding read_four
read_ip s = read_four (split b'.' s)

abbrev pub toy : External
toy = record {
  parse_ip = read_ip;
  ip_string = print_ip;
  sprintf = λ s. s;
  shell_split = split_words;
  shell_quote = shift;
  toml_encode = λ raws. [];
  toml_decode = λ s. some [];
  md5 = λ s. s;
  sha256 = λ s. s;
  new_sha1 = λ space name. name;
}

shift_ends : (v : Text) → ends_well (shift v) ≡ true
unfolding shift
shift_ends [] = refl
shift_ends (c ∷ []) = ground arith
shift_ends (c ∷ d ∷ v) = shift_ends (d ∷ v)

shift_no_space : (v : Text) → has_byte b' ' (shift v) ≡ false
unfolding shift
shift_no_space [] = refl
shift_no_space (c ∷ v) = ground (arith, shift_no_space v)

decode-shift : (v : Text) → decode (shift v) ≡ v
unfolding decode shift
decode-shift [] = refl
decode-shift (c ∷ v) = ground (arith, decode-shift v)

plain_no_space : (k : Text) → is_plain k ≡ true → has_byte b' ' k ≡ false
plain_no_space [] h = cc
plain_no_space (c ∷ s) h = ground (arith, go s)
  where
    go : (s : Text) → all is_plain_byte s ≡ true → has_byte b' ' s ≡ false
    go [] h = refl
    go (c ∷ s) h = ground (arith, go s)

decode_plain : (k s : Text) → all is_plain_byte k ≡ true → decode (k ++ s) ≡ k ++ decode s
unfolding decode
decode_plain [] s h = refl
decode_plain (c ∷ k) s h = ground (arith, decode_plain k s)

all_plain : (k : Text) → is_plain k ≡ true → all is_plain_byte k ≡ true
all_plain [] h = cc
all_plain (c ∷ k) h = h

append_nil : (k : Text) → k ++ [] ≡ k
append_nil [] = refl
append_nil (c ∷ k) = ap (◌∷◌ c) (append_nil k)

decode_equals : (v : Text) → decode (b'=' ∷ shift v) ≡ b'=' ∷ v
unfolding decode
decode_equals v = ap (◌∷◌ b'=') (decode-shift v)

decode-written : (w : Word) → is_plain (word_name w) ≡ true → decode (written toy w) ≡ meant w
decode-written (bare k) h =
    ap decode (sym (append_nil k))
    ∙ decode_plain k [] (all_plain k h)
    ∙ unfold decode in append_nil k
decode-written (assign k v) h =
    decode_plain k (b'=' ∷ shift v) (all_plain k h) ∙ ap (λ (s : Text). k ++ s) (decode_equals v)

decode_all : (ws : List Word) → AllPlain ws → map decode (map (written toy) ws) ≡ map meant ws
decode_all [] h = refl
decode_all (w ∷ ws) h = ap₂ ◌∷◌ (decode-written w h.0) (decode_all ws h.1)

written_no_space :
    (w : Word) → is_plain (word_name w) ≡ true → has_byte b' ' (written toy w) ≡ false
written_no_space (bare k) h = plain_no_space k h
written_no_space (assign k v) h =
    rw (any-append (λ d. d == b' ') k (b'=' ∷ shift v))
      (ground (arith, plain_no_space k h, shift_no_space v))

all_no_space : (ws : List Word) → AllPlain ws → NoByte b' ' (map (written toy) ws)
all_no_space [] h = tt
all_no_space (w ∷ ws) h = (written_no_space w h.0, all_no_space ws h.1)

append_ne : (a : Text) (c : ℕ) (b : Text) → is_empty (a ++ c ∷ b) ≡ false
append_ne [] c b = refl
append_ne (d ∷ a) c b = refl

written_ne : (w : Word) → is_plain (word_name w) ≡ true → is_empty (written toy w) ≡ false
written_ne (bare []) h = cc
written_ne (bare (c ∷ k)) h = refl
written_ne (assign k v) h = append_ne k b'=' (shift v)

ne-append : (a b : Text) → is_empty a ≡ false → is_empty (a ++ b) ≡ false
ne-append [] b h = cc
ne-append (c ∷ a) b h = refl

line_ne :
    (w : Word) (ws : List Word)
    → is_plain (word_name w) ≡ true
    → is_empty (join b' ' (map (written toy) (w ∷ ws))) ≡ false
unfolding join
line_ne w [] h = written_ne w h
line_ne w (v ∷ ws) h =
    ne-append (written toy w) (b' ' ∷ join b' ' (map (written toy) (v ∷ ws))) (written_ne w h)

split-written :
    (ws : List Word)
    → AllPlain ws
    → split_words (join b' ' (map (written toy) ws)) ≡ some (map meant ws)
unfolding split_words
split-written [] h = unfold join in refl
split-written (w ∷ ws) h =
    rw
      (
        line_ne w ws h.0,
        split-join b' ' (written toy w) (map (written toy) ws) (all_no_space (w ∷ ws) h),
      )
      (ap some (decode_all (w ∷ ws) h))

pub toy-ShellLaws : ShellLaws toy
toy-ShellLaws = record { split_written = split-written; quote_ends = shift_ends }
