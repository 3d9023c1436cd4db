-- ===== src/Storage/Format/DbHeader.antt =====
-- crates/vexra-storage/src/format.rs: the database header in the first 100 bytes of page 0. The
-- clock (`current_timestamp`) and the checksum of the crc32fast crate are arguments. The fixed
-- arrays `magic` and `_reserved` are byte lists; `Fits` records their lengths.
pub mod Laws
use embeddb.Base.{
  ℕ, ◌<◌, ◌^◌, ◌≡◌, Bool, true, false, ◌&&◌, Option, none, some, List, [], ◌∷◌, ◌++◌, ltb, ◌==◌,
  if◌then◌else◌, length, take, replicate,
}
use embeddb.Base.Bytes.{slice, write_at, to_le, from_le}
use embeddb.Storage.Format.{db_header_size}

pub record DbHeader : Type 0 where
  pub magic : List ℕ
  pub format_version : ℕ
  pub page_size : ℕ
  pub page_count : ℕ
  pub catalog_root_page : ℕ
  pub wal_sequence : ℕ
  pub created_at : ℕ
  pub last_checkpoint : ℕ
  pub checksum : ℕ
  pub reserved : List ℕ

-- `MAGIC` of lib.rs, eleven bytes.
abbrev pub magic : List ℕ
magic = b'E' ∷ b'm' ∷ b'b' ∷ b'e' ∷ b'd' ∷ b'D' ∷ b'B' ∷ b' ' ∷ b'v' ∷ b'1' ∷ 0 ∷ []

abbrev pub magic_filled : List ℕ
magic_filled = magic ++ replicate 5 0

abbrev pub format_version : ℕ
format_version = 1

abbrev pub default_page_size : ℕ
default_page_size = 4096

-- `DbHeader::new`, with the fields of `default`.
unfoldable pub new : ℕ → ℕ → DbHeader
new now page_size = record {
  magic = magic_filled;
  format_version = format_version;
  page_size = page_size;
  page_count = 1;
  catalog_root_page = 0;
  wal_sequence = 0;
  created_at = now;
  last_checkpoint = 0;
  checksum = 0;
  reserved = replicate 32 0;
}

-- `serialize_to` of a buffer of at least 100 bytes; `none` is the panic on a shorter one.
unfoldable pub serialize_to : DbHeader → List ℕ → Option (List ℕ)
serialize_to h buf =
    if ltb (length buf) db_header_size
    then none
    else some (
        write_at 68 h.reserved (
          write_at 64 (to_le 4 h.checksum) (
            write_at 56 (to_le 8 h.last_checkpoint) (
              write_at 48 (to_le 8 h.created_at) (
                write_at 40 (to_le 8 h.wal_sequence) (
                  write_at 32 (to_le 8 h.catalog_root_page) (
                    write_at 24 (to_le 8 h.page_count) (
                      write_at 20 (to_le 4 h.page_size) (
                        write_at 16 (to_le 4 h.format_version) (
                          write_at 0 h.magic (write_at 0 (replicate db_header_size 0) buf)))))))))))

unfoldable pub deserialize_from : List ℕ → Option DbHeader
deserialize_from buf =
    if ltb (length buf) db_header_size
    then none
    else some (record {
      magic = slice 0 16 buf;
      format_version = from_le (slice 16 4 buf);
      page_size = from_le (slice 20 4 buf);
      page_count = from_le (slice 24 8 buf);
      catalog_root_page = from_le (slice 32 8 buf);
      wal_sequence = from_le (slice 40 8 buf);
      created_at = from_le (slice 48 8 buf);
      last_checkpoint = from_le (slice 56 8 buf);
      checksum = from_le (slice 64 4 buf);
      reserved = slice 68 32 buf;
    })

unfoldable pub list_eq : List ℕ → List ℕ → Bool
list_eq [] [] = true
list_eq (x ∷ xs) (y ∷ ys) = x == y && list_eq xs ys
list_eq _ _ = false

unfoldable pub validate_magic : DbHeader → Bool
unfolding list_eq
validate_magic h = list_eq (take 11 h.magic) magic

unfoldable pub validate_version : DbHeader → Bool
validate_version h = h.format_version == format_version

-- The checksum is over the first 64 serialized bytes, the checksum field set to zero.
abbrev pub checked_bytes : Option (List ℕ) → List ℕ
checked_bytes none = []
checked_bytes (some buf) = take 64 buf

unfoldable pub update_checksum : (List ℕ → ℕ) → DbHeader → DbHeader
update_checksum crc h =
    let zeroed = record h { checksum = 0 } in
    record zeroed {
      checksum = crc (checked_bytes (serialize_to zeroed (replicate db_header_size 0)));
    }

unfoldable pub verify_checksum : (List ℕ → ℕ) → DbHeader → Bool
verify_checksum crc h =
    crc (checked_bytes (serialize_to (record h { checksum = 0 }) (replicate db_header_size 0)))
    == h.checksum
