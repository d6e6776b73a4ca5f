-- ===== src/Tests/Fixture.antt =====
-- A platform in place of jsmn, the allocator and OpenSSL: its cipher swaps the bytes 0 and 1.
use open_content_decryption.Base.{
  ℕ, ◌+◌, ◌≡◌, refl, ap, arith, true, Option, none, some, List, [], ◌∷◌, Bytes, length, map, ◌==◌,
  if◌then◌else◌,
}
use open_content_decryption.Base.Int.{pos}
use open_content_decryption.JsonWebKey.{Token, Parser, object, array, string}
use open_content_decryption.MediaKeySession.Decrypt.{RefusesOtherSizes}
use open_content_decryption.SampleLoop.Rounds.{IsCounterMode}
use open_content_decryption.Service.Create.{HasRoom}
use open_content_decryption.World.{Platform}

-- The parser's tokens for every text: those of the license in the sibling module.
abbrev pub license_tokens : List Token
license_tokens =
    record { kind = object; start = pos 0; stop = pos 52; size = pos 1 }
    ∷ record { kind = string; start = pos 2; stop = pos 6; size = pos 1 }
    ∷ record { kind = array; start = pos 8; stop = pos 51; size = pos 1 }
    ∷ record { kind = object; start = pos 9; stop = pos 50; size = pos 2 }
    ∷ record { kind = string; start = pos 11; stop = pos 14; size = pos 1 }
    ∷ record { kind = string; start = pos 17; stop = pos 19; size = pos 0 }
    ∷ record { kind = string; start = pos 22; stop = pos 23; size = pos 1 }
    ∷ record { kind = string; start = pos 26; stop = pos 48; size = pos 0 }
    ∷ []

abbrev pub parse_license : Parser
parse_license json stack = (pos 8, license_tokens)

abbrev pub swap : ℕ → ℕ
swap b = if b == 0 then 1 else if b == 1 then 0 else b

abbrev pub expand : Bytes → ℕ → Option Bytes
expand key bits =
    if bits == 128
    then some key
    else if bits == 192
    then some key
    else if bits == 256
    then some key
    else none

-- The allocator rounds up.
abbrev pub roomy : ℕ → ℕ
roomy n = n + 8

abbrev pub platform : Platform
platform = record {
  jsmn_parse = parse_license;
  stack = [];
  usable = roomy;
  connects = λ _. true;
  Schedule = Bytes;
  aes_set_encrypt_key = expand;
  aes_ctr128_encrypt = λ k c m. map swap m;
}

pub platform-HasRoom : HasRoom platform.usable
platform-HasRoom n small = omega arith

length_swapped : (m : Bytes) → length (map swap m) ≡ length m
length_swapped [] = refl
length_swapped (b ∷ m) = omega (arith, length_swapped m)

swap-swap : (b : ℕ) → swap (swap b) ≡ b
swap-swap b = ground arith

swapped_twice : (m : Bytes) → map swap (map swap m) ≡ m
swapped_twice [] = refl
swapped_twice (b ∷ m) = rw (swap-swap b) (ap (◌∷◌ b) (swapped_twice m))

pub platform-IsCounterMode : IsCounterMode platform
platform-IsCounterMode = record {
  length_kept = λ k c m. length_swapped m;
  undoes = λ k c m. swapped_twice m;
}

pub platform-RefusesOtherSizes : RefusesOtherSizes platform
platform-RefusesOtherSizes key bits h1 h2 h3 = ground arith
