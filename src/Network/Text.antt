-- ===== src/Network/Text.antt =====
-- The text of a MAC in common/network.c determines its bytes.
use rmt_library.Common.{
  ℕ, ◌+◌, ◌-◌, ◌*◌, ◌/◌, ◌%◌, ◌<◌, ◌≤◌, ◌≡◌, refl, if◌then◌else◌, ltb, Option, none, some, [], ◌∷◌,
  Bytes, length, take_all, arith,
}
use rmt_library.Network.{Mac, hex_digit, hex_byte, get_mac}

-- the value of a digit of `%x`
abbrev pub hex_value : ℕ → ℕ
hex_value c = if ltb c b'a' then c - b'0' else c - b'a' + 10

abbrev pub two : ℕ → ℕ → ℕ
two h l = hex_value h * 16 + hex_value l

-- a reader of the format "%02x:%02x:%02x:%02x:%02x:%02x"
abbrev pub read_mac : Bytes → Option Mac
read_mac (a ∷ b ∷ _ ∷ c ∷ d ∷ _ ∷ e ∷ f ∷ _ ∷ g ∷ h ∷ _ ∷ i ∷ j ∷ _ ∷ k ∷ l ∷ []) =
    some (record {
      b0 = two a b;
      b1 = two c d;
      b2 = two e f;
      b3 = two g h;
      b4 = two i j;
      b5 = two k l;
    })
read_mac _ = none

byte_back : (b : ℕ) → b < 256 → two (hex_digit (b / 16)) (hex_digit (b % 16)) ≡ b
byte_back b h = ground arith

-- six bytes
pub record IsMac (m : Mac) : Type 0 where
  pub b0 : m.b0 < 256
  pub b1 : m.b1 < 256
  pub b2 : m.b2 < 256
  pub b3 : m.b3 < 256
  pub b4 : m.b4 < 256
  pub b5 : m.b5 < 256

-- In a buffer of at least eighteen bytes the text of a MAC is complete: it has seventeen characters, and the six
-- bytes can be read back.
pub read_mac-get_mac :
    (m : Mac) (mac_len : ℕ)
    → IsMac m
    → 18 ≤ mac_len
    → (length (get_mac m mac_len) ≡ 17) × (read_mac (get_mac m mac_len) ≡ some m)
unfolding get_mac
read_mac-get_mac m mac_len v h =
    let whole = hex_byte m.b0 (
      b':'
      ∷ hex_byte m.b1 (
          b':'
          ∷ hex_byte m.b2
              (b':' ∷ hex_byte m.b3 (b':' ∷ hex_byte m.b4 (b':' ∷ hex_byte m.b5 []))))) in
    rw (take_all (mac_len - 1) whole (omega arith)) (
      refl,
      λ i. some (record {
        b0 = byte_back m.b0 v.b0 i;
        b1 = byte_back m.b1 v.b1 i;
        b2 = byte_back m.b2 v.b2 i;
        b3 = byte_back m.b3 v.b3 i;
        b4 = byte_back m.b4 v.b4 i;
        b5 = byte_back m.b5 v.b5 i;
      }),
    )
