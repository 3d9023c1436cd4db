-- ===== src/Storage/Format/DbHeader/Laws.antt =====
-- The database header survives its encoding, and what its checksum covers (format.rs).
use embeddb.Base.{
  ℕ, ◌+◌, ◌-◌, ◌^◌, ◌<◌, ◌≤◌, ◌≡◌, refl, ap, ap₂, sym, ◌∙◌, some, List, ◌++◌, arith, length, take,
  drop, true, le→ltb, append_assoc, length-append, replicate, ◌==◌, take_all, take-append,
  drop-append,
}
use embeddb.Base.Bytes.{
  slice, write_at, to_le, from_le, from_le-to_le, length-write_at, write_at-write_at_next,
  slice-write_at_inside, drop-write_at_after, write_at-write_at_over,
}
use embeddb.Storage.Format.DbHeader.{
  DbHeader, new, serialize_to, deserialize_from, validate_magic, validate_version, update_checksum,
  verify_checksum, checked_bytes,
}

ruleset len = (arith, length-append)

-- Every field is in the range of its Rust type, and the two arrays have their lengths.
pub record Fits (h : DbHeader) : Type 0 where
  pub magic : length h.magic ≡ 16
  pub format_version : h.format_version < 2 ^ 32
  pub page_size : h.page_size < 2 ^ 32
  pub page_count : h.page_count < 2 ^ 64
  pub catalog_root_page : h.catalog_root_page < 2 ^ 64
  pub wal_sequence : h.wal_sequence < 2 ^ 64
  pub created_at : h.created_at < 2 ^ 64
  pub last_checkpoint : h.last_checkpoint < 2 ^ 64
  pub checksum : h.checksum < 2 ^ 32
  pub reserved : length h.reserved ≡ 32

-- The 48 bytes of the numbers before the checksum.
abbrev pub number_bytes : DbHeader → List ℕ
number_bytes h =
    to_le 4 h.format_version
    ++ to_le 4 h.page_size
    ++ to_le 8 h.page_count
    ++ to_le 8 h.catalog_root_page
    ++ to_le 8 h.wal_sequence
    ++ to_le 8 h.created_at
    ++ to_le 8 h.last_checkpoint

abbrev pub header_bytes : DbHeader → List ℕ
header_bytes h = h.magic ++ (number_bytes h ++ (to_le 4 h.checksum ++ h.reserved))

length-header_bytes : (h : DbHeader) → Fits h → length (header_bytes h) ≡ 100
length-header_bytes h f = omega (
  arith,
  length-append h.magic (number_bytes h ++ (to_le 4 h.checksum ++ h.reserved)),
  f.magic,
  f.reserved,
)

next :
    (p q xs : List ℕ) (o : ℕ)
    → length p ≡ o
    → write_at o q (write_at 0 p xs) ≡ write_at 0 (p ++ q) xs
next p q xs o h = write_at-write_at_next o 0 p q xs (omega arith)

grow : (p q : List ℕ) (i j : ℕ) → length p ≡ i → length q ≡ j → length (p ++ q) ≡ i + j
grow p q i j h k = length-append p q ∙ ap₂ (◌+◌) h k

-- Ten fields written one behind the other over a filled buffer are one write of the joined bytes.
write_fields :
    (m a b c d e f g k r zeros buf : List ℕ)
    → length m ≡ 16
    → length a ≡ 4
    → length b ≡ 4
    → length c ≡ 8
    → length d ≡ 8
    → length e ≡ 8
    → length f ≡ 8
    → length g ≡ 8
    → length k ≡ 4
    → length r ≡ 32
    → length zeros ≡ 100
    → write_at 68 r (
        write_at 64 k (
          write_at 56 g (
            write_at 48 f (
              write_at 40 e (
                write_at 32 d (
                  write_at 24 c
                    (write_at 20 b (write_at 16 a (write_at 0 m (write_at 0 zeros buf))))))))))
      ≡ write_at 0 (m ++ ((a ++ b ++ c ++ d ++ e ++ f ++ g) ++ (k ++ r))) buf
write_fields m a b c d e f g k r zeros buf lm la lb lc ld le lf lg lk lr lz =
    let base = write_at 0 zeros buf in
    let p1 = m ++ a in
    let l1 = grow m a 16 4 lm la in
    let p2 = p1 ++ b in
    let l2 = grow p1 b 20 4 l1 lb in
    let p3 = p2 ++ c in
    let l3 = grow p2 c 24 8 l2 lc in
    let p4 = p3 ++ d in
    let l4 = grow p3 d 32 8 l3 ld in
    let p5 = p4 ++ e in
    let l5 = grow p4 e 40 8 l4 le in
    let p6 = p5 ++ f in
    let l6 = grow p5 f 48 8 l5 lf in
    let p7 = p6 ++ g in
    let l7 = grow p6 g 56 8 l6 lg in
    let p8 = p7 ++ k in
    let l8 = grow p7 k 64 4 l7 lk in
    let p9 = p8 ++ r in
    let l9 = grow p8 r 68 32 l8 lr in
    rw
      (
        next m a base 16 lm,
        next p1 b base 20 l1,
        next p2 c base 24 l2,
        next p3 d base 32 l3,
        next p4 e base 40 l4,
        next p5 f base 48 l5,
        next p6 g base 56 l6,
        next p7 k base 64 l7,
        next p8 r base 68 l8,
        write_at-write_at_over zeros p9 buf (omega (arith, l9, lz)),
      )
      (ap (λ s. write_at 0 s buf) (simp append_assoc))

serialize_to-header_bytes :
    (h : DbHeader) (buf : List ℕ)
    → Fits h
    → 100 ≤ length buf
    → serialize_to h buf ≡ some (write_at 0 (header_bytes h) buf)
unfolding serialize_to
serialize_to-header_bytes h buf f k = rw (le→ltb (length buf) 100 k) (
    ap some (
      write_fields h.magic (to_le 4 h.format_version) (to_le 4 h.page_size) (to_le 8 h.page_count)
        (to_le 8 h.catalog_root_page) (to_le 8 h.wal_sequence) (to_le 8 h.created_at)
        (to_le 8 h.last_checkpoint) (to_le 4 h.checksum) h.reserved (replicate 100 0) buf f.magic
        refl refl refl refl refl refl refl refl f.reserved refl))

-- Reading behind the magic bytes.
behind_magic :
    (m xs : List ℕ) (o j n : ℕ) → length m ≡ 16 → o ≡ 16 + j → slice o n (m ++ xs) ≡ slice j n xs
behind_magic m xs o j n lm e = ap (take n) (
    drop-append o m xs (omega arith) ∙ ap (λ i. drop i xs) {x = o - length m} {y = j} (omega arith))

take_front : (m xs : List ℕ) → length m ≡ 16 → take 16 (m ++ xs) ≡ m
take_front m xs lm = ap (λ n. take n (m ++ xs)) (sym lm) ∙ take-append m xs

deserialize-write_at :
    (h : DbHeader) (buf : List ℕ)
    → Fits h
    → deserialize_from (write_at 0 (header_bytes h) buf) ≡ some h
unfolding deserialize_from
deserialize-write_at h buf f =
    rw
      (le→ltb (length (write_at 0 (header_bytes h) buf)) 100
        (omega (arith, length-write_at 0 (header_bytes h) buf, length-header_bytes h f)))
      (λ i. some (record {
        magic = (inside 0 16 (omega arith) ∙ take_front h.magic rest f.magic) i;
        format_version = number 16 0 4 h.format_version (omega arith) refl refl f.format_version i;
        page_size = number 20 4 4 h.page_size (omega arith) refl refl f.page_size i;
        page_count = number 24 8 8 h.page_count (omega arith) refl refl f.page_count i;
        catalog_root_page =
            number 32 16 8 h.catalog_root_page (omega arith) refl refl f.catalog_root_page i;
        wal_sequence = number 40 24 8 h.wal_sequence (omega arith) refl refl f.wal_sequence i;
        created_at = number 48 32 8 h.created_at (omega arith) refl refl f.created_at i;
        last_checkpoint =
            number 56 40 8 h.last_checkpoint (omega arith) refl refl f.last_checkpoint i;
        checksum = number 64 48 4 h.checksum (omega arith) refl refl f.checksum i;
        reserved =
            (inside 68 32 (omega arith)
                ∙ behind_magic h.magic rest 68 52 32 f.magic refl
                ∙ take_all 32 h.reserved (omega (arith, f.reserved)))
              i;
      }))
  where
    rest : List ℕ
    rest = number_bytes h ++ (to_le 4 h.checksum ++ h.reserved)

    inside :
        (o n : ℕ)
        → o + n ≤ 100
        → slice o n (write_at 0 (header_bytes h) buf) ≡ slice o n (header_bytes h)
    inside o n k =
        slice-write_at_inside o n (header_bytes h) buf (omega (arith, length-header_bytes h f))

    number :
        (o j n v : ℕ)
        → o + n ≤ 100
        → o ≡ 16 + j
        → slice j n rest ≡ to_le n v
        → v < 256 ^ n
        → from_le (slice o n (write_at 0 (header_bytes h) buf)) ≡ v
    number o j n v k e q hv =
        ap from_le (inside o n k ∙ behind_magic h.magic rest o j n f.magic e ∙ q)
        ∙ from_le-to_le n v hv

-- A header whose fields fit, serialized into any buffer of at least 100 bytes, is read back as it
-- was; the buffer keeps its length and every byte from offset 100 on.
pub db_header_roundtrip :
    (h : DbHeader) (buf : List ℕ) {out : List ℕ}
    → Fits h
    → 100 ≤ length buf
    → serialize_to h buf ≡ some out
    → (deserialize_from out ≡ some h) × (length out ≡ length buf) × (drop 100 out ≡ drop 100 buf)
db_header_roundtrip h buf {out} f k e =
    let out_eq : out ≡ write_at 0 (header_bytes h) buf =
      cc (e, serialize_to-header_bytes h buf f k) in
    let len = length-header_bytes h f in
    (
      ap deserialize_from out_eq ∙ deserialize-write_at h buf f,
      ap length out_eq ∙ length-write_at 0 (header_bytes h) buf ∙ omega (arith, len),
      ap (drop 100) out_eq ∙ drop-write_at_after 100 0 (header_bytes h) buf (omega (arith, len)),
    )

zeroed-Fits : {h : DbHeader} → Fits h → Fits (record h { checksum = 0 })
zeroed-Fits f = record {
  magic = f.magic;
  format_version = f.format_version;
  page_size = f.page_size;
  page_count = f.page_count;
  catalog_root_page = f.catalog_root_page;
  wal_sequence = f.wal_sequence;
  created_at = f.created_at;
  last_checkpoint = f.last_checkpoint;
  checksum = omega arith;
  reserved = f.reserved;
}

checked_bytes-serialize :
    (h : DbHeader)
    → Fits h
    → checked_bytes (serialize_to h (replicate 100 0)) ≡ h.magic ++ number_bytes h
checked_bytes-serialize h f =
    ap checked_bytes (serialize_to-header_bytes h (replicate 100 0) f (omega arith))
    ∙ slice-write_at_inside 0 64 (header_bytes h) (replicate 100 0)
        (omega (arith, length-header_bytes h f))
    ∙ ap (take 64) (sym (append_assoc h.magic (number_bytes h) (to_le 4 h.checksum ++ h.reserved)))
    ∙ ap (λ n. take n ((h.magic ++ number_bytes h) ++ (to_le 4 h.checksum ++ h.reserved))) {x = 64}
        {y = length (h.magic ++ number_bytes h)}
        (omega (arith, length-append h.magic (number_bytes h), f.magic))
    ∙ take-append (h.magic ++ number_bytes h) (to_le 4 h.checksum ++ h.reserved)

-- What the checksum covers. Let `h` be given its checksum, and let `h'` carry that same checksum.
-- Then `h'` passes the check exactly when the hash of its magic bytes and seven numbers equals that
-- of `h`: the check looks at these 64 bytes, so it accepts `h` itself, and never at `reserved`.
pub verify-update_checksum :
    (crc : List ℕ → ℕ) (h h' : DbHeader)
    → Fits h
    → Fits h'
    → h'.checksum ≡ (update_checksum crc h).checksum
    → verify_checksum crc h'
      ≡ (crc (h'.magic ++ number_bytes h') == crc (h.magic ++ number_bytes h))
unfolding update_checksum verify_checksum
verify-update_checksum crc h h' f f' e =
    ap₂ ◌==◌ (ap crc (checked_bytes-serialize (record h' { checksum = 0 }) (zeroed-Fits f')))
      (e ∙ ap crc (checked_bytes-serialize (record h { checksum = 0 }) (zeroed-Fits f)))

-- A new header fits its fields, names the format's magic bytes and version, and starts with one page.
pub new-Fits :
    (now page_size : ℕ)
    → now < 2 ^ 64
    → page_size < 2 ^ 32
    → Fits (new now page_size)
      × (validate_magic (new now page_size) ≡ true)
      × (validate_version (new now page_size) ≡ true)
unfolding new validate_magic validate_version
new-Fits now page_size hn hp = (
  record {
    magic = refl;
    format_version = omega arith;
    page_size = hp;
    page_count = omega arith;
    catalog_root_page = omega arith;
    wal_sequence = omega arith;
    created_at = hn;
    last_checkpoint = omega arith;
    checksum = omega arith;
    reserved = refl;
  },
  refl,
  refl,
)
