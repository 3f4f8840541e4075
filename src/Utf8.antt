-- ===== src/Utf8.antt =====
-- `bytes.decode("utf-8", "replace")` and `str.encode()` of the Python library. Each maximal part of
-- an ill-formed sequence is replaced by U+FFFD.
pub mod Injective
use tartarus_nix.Base.{
  ℕ, ◌+◌, ◌-◌, ◌*◌, ◌/◌, ◌%◌, Bool, ◌&&◌, Option, none, some, [], ◌∷◌, ◌++◌, Bytes, Text, ltb, leb,
  ◌==◌, if◌then◌else◌,
}

-- A sequence that is not complete: how many bytes it wants, the bounds of the next one, and the
-- code point so far.
pub record Partial : Type 0 where
  pub need : ℕ
  pub low : ℕ
  pub high : ℕ
  pub point : ℕ

replacement : ℕ
replacement = 0xfffd

within : ℕ → ℕ → ℕ → Bool
within low high b = leb low b && leb b high

wants : ℕ → ℕ → ℕ → ℕ → Text × Option Partial
wants need low high point =
    ([], some (record { need = need; low = low; high = high; point = point }))

-- A byte where no sequence is open.
start : ℕ → Text × Option Partial
unfolding replacement within wants
start b =
    if ltb b 0x80
    then (b ∷ [], none)
    else if within 0xc2 0xdf b
    then wants 1 0x80 0xbf (b - 0xc0)
    else if b == 0xe0
    then wants 2 0xa0 0xbf 0
    else if b == 0xed
    then wants 2 0x80 0x9f 0xd
    else if within 0xe1 0xef b
    then wants 2 0x80 0xbf (b - 0xe0)
    else if b == 0xf0
    then wants 3 0x90 0xbf 0
    else if b == 0xf4
    then wants 3 0x80 0x8f 4
    else if within 0xf1 0xf3 b
    then wants 3 0x80 0xbf (b - 0xf0)
    else (replacement ∷ [], none)

continue : Partial → ℕ → Text × Option Partial
unfolding start
continue p b =
    if within p.low p.high b
    then (let point = p.point * 64 + (b - 0x80) in
        if p.need == 1 then (point ∷ [], none) else wants (p.need - 1) 0x80 0xbf point)
    else (let (out, open_part) = start b in (replacement ∷ out, open_part))

decode_from : Option Partial → Bytes → Text
unfolding continue
decode_from none [] = []
decode_from (some p) [] = replacement ∷ []
decode_from none (b ∷ s) = (start b).0 ++ decode_from (start b).1 s
decode_from (some p) (b ∷ s) = (continue p b).0 ++ decode_from (continue p b).1 s

unfoldable pub decode : Bytes → Text
unfolding decode_from
decode s = decode_from none s

unfoldable pub encode_char : ℕ → Bytes
encode_char c =
    if ltb c 0x80
    then c ∷ []
    else if ltb c 0x800
    then (0xc0 + c / 64) ∷ (0x80 + c % 64) ∷ []
    else if ltb c 0x10000
    then (0xe0 + c / 4096) ∷ (0x80 + c / 64 % 64) ∷ (0x80 + c % 64) ∷ []
    else (0xf0 + c / 262144) ∷ (0x80 + c / 4096 % 64) ∷ (0x80 + c / 64 % 64) ∷ (0x80 + c % 64) ∷ []

unfoldable pub encode : Text → Bytes
unfolding encode_char
encode [] = []
encode (c ∷ t) = encode_char c ++ encode t
