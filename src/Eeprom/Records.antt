-- ===== src/Eeprom/Records.antt =====
-- A record in flash: what the module writes is valid, and a corrupted byte is noticed.
use mathlib.Core.Path.{subst}
use native.Mathlib.Nat.{mod-eq_of_lt}
use llos.Base.{
  ℕ, ◌+◌, ◌^◌, ◌<◌, ◌≡◌, ◌≢◌, sym, ap, ◌∙◌, inl, inr, arith, true, false, some, List, [], ◌∷◌, ◌++◌,
  Bool-cases, u8, u16, ◌<<<◌, ◌>>>◌,
}
use llos.Crc.{crc_cal}
use llos.Crc.Models.{crc8}
use llos.Crc.Detect.{crc_cal-one_byte, crc_cal-lt}
use llos.Crc.Serial.{AreBytes}
use llos.Eeprom.{
  Slot, slot_crc, record_magic, record_is_empty, record_bytes, record_crc, record_is_valid,
  prepare_record,
}

AreBytes-split :
    (before after : List ℕ) (a : ℕ)
    → AreBytes (before ++ a ∷ after)
    → AreBytes before × (a < 2 ^ 8) × AreBytes after
AreBytes-split [] after a all = (tt, all.0, all.1)
AreBytes-split (b ∷ bs) after a all =
    let (front, small, back) = AreBytes-split bs after a all.1 in ((all.0, front), small, back)

record_bytes-AreBytes : (u : Slot) → u.word2 < 2 ^ 32 → AreBytes (record_bytes u)
unfolding record_bytes
record_bytes-AreBytes u h = (
  omega arith,
  (omega arith, (omega arith, (omega arith, (omega arith, (omega arith, (omega (arith, h), tt)))))),
)

-- The members of the second word with the mark and a CRC in it.
word_members :
    (c : ℕ)
    → c < 2 ^ 8
    → (u16 ((record_magic <<< 24) + (c <<< 16)) ≡ 0)
      × (((record_magic <<< 24) + (c <<< 16)) >>> 24 ≡ record_magic)
      × (u8 (((record_magic <<< 24) + (c <<< 16)) >>> 16) ≡ c)
word_members c h = (omega (arith, h), omega (arith, h), omega (arith, h))

-- The CRC of a record does not read the member that holds it.
record_crc-members :
    (word c : ℕ)
    → c < 2 ^ 8
    → record_crc (record { word1 = word; word2 = (record_magic <<< 24) + (c <<< 16) })
      ≡ record_crc (record { word1 = word; word2 = record_magic <<< 24 })
unfolding record_crc record_bytes
record_crc-members word c h =
    let (cycle, rev, _) = word_members c h in
    let crc : List ℕ → ℕ = λ tail.
      u8
        (crc_cal (some crc8)
          (some (u8 (word >>> 24) ∷ u8 (word >>> 16) ∷ u8 (word >>> 8) ∷ u8 word ∷ tail)) 7).0 in
    ap (λ y. crc (u8 (y >>> 8) ∷ u8 y ∷ (((record_magic <<< 24) + (c <<< 16)) >>> 24) ∷ [])) cycle
    ∙ ap (λ r. crc (0 ∷ 0 ∷ r ∷ [])) rev

record_crc-lt : (u : Slot) → record_crc u < 2 ^ 8
unfolding record_crc
record_crc-lt u = omega arith

-- EEPROM_Flash_PrepareRecord: the record is valid, whatever the data, if the highest byte of a word of erased flash is
-- not the mark 0xA5.
pub prepare_record-is_valid :
    (erased word : ℕ)
    → erased >>> 24 ≢ record_magic
    → record_is_valid erased (prepare_record word) ≡ true
unfolding record_is_valid record_is_empty prepare_record
prepare_record-is_valid erased word h =
    let filled : Slot = record { word1 = word; word2 = record_magic <<< 24 } in
    let (_, rev, crc) = word_members (record_crc filled) (record_crc-lt filled) in
    ground (arith, h, rev, crc, record_crc-members word (record_crc filled) (record_crc-lt filled))

record_crc-exact :
    (u : Slot) (bytes : List ℕ)
    → u.word2 < 2 ^ 32
    → record_bytes u ≡ bytes
    → record_crc u ≡ (crc_cal (some crc8) (some bytes) 7).0
unfolding record_crc
record_crc-exact u bytes h e =
    mod-eq_of_lt (crc_cal-lt (record_bytes u) 7 (record_bytes-AreBytes u h))
    ∙ ap (λ xs. (crc_cal (some crc8) (some xs) 7).0) e

record_is_valid-crc :
    (erased : ℕ) (u : Slot) → record_is_valid erased u ≡ true → slot_crc u ≡ record_crc u
unfolding record_is_valid
record_is_valid-crc erased u h = ground (arith, h)

-- EEPROM_Flash_RecordIsValid: if a valid record and another one have the same CRC member and the seven bytes
-- under the CRC differ in exactly one, at any place, then the other record is not valid.
pub record_is_valid-corrupted :
    (erased : ℕ) (u v : Slot) (before after : List ℕ) (a b : ℕ)
    → u.word2 < 2 ^ 32
    → v.word2 < 2 ^ 32
    → record_bytes u ≡ before ++ a ∷ after
    → record_bytes v ≡ before ++ b ∷ after
    → a ≢ b
    → slot_crc u ≡ slot_crc v
    → record_is_valid erased u ≡ true
    → record_is_valid erased v ≡ false
record_is_valid-corrupted erased u v before after a b hu hv eu ev differ same valid =
    let all_u = record_bytes-AreBytes u hu in
    let all_v = record_bytes-AreBytes v hv in
    let (front, small_a, back) = AreBytes-split before after a (subst AreBytes eu all_u) in
    let (_, small_b, _) = AreBytes-split before after b (subst AreBytes ev all_v) in
    let distinct = crc_cal-one_byte before after a b 7 front back small_a small_b differ in
    let crc_u = record_crc-exact u (before ++ a ∷ after) hu eu in
    let crc_v = record_crc-exact v (before ++ b ∷ after) hv ev in
    elim (Bool-cases (record_is_valid erased v)) [
      | inl both ↦ absurd (
          distinct (
            sym crc_u
            ∙ sym (record_is_valid-crc erased u valid)
            ∙ same
            ∙ record_is_valid-crc erased v both
            ∙ crc_v))
      | inr refused ↦ refused
    ]
