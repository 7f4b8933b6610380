-- ===== src/Db/Keys/RoundTrip.antt =====
-- db/rocksdb.go, packUint and packAddressKey: on reading them back.
use skyr_block_explorer.Prelude.{
  ℕ, ◌+◌, ◌-◌, ◌^◌, ◌<◌, ◌≡◌, refl, ◌∙◌, ap, some, [], ◌++◌, append-nil, length, length-append,
  arith, leb, if◌then◌else◌,
}
use skyr_block_explorer.Prelude.Bytes.{Bytes, slice_from-append, slice_to-append}
use skyr_block_explorer.Prelude.Result.{ok, err, invalid_address_key}
use skyr_block_explorer.Db.Keys.{
  pack_uint, unpack_uint, pack_address_key, unpack_address_key, complement32,
}

pub unpack_uint-pack_uint :
    (i : ℕ) (rest : Bytes) → i < 2 ^ 32 → unpack_uint (pack_uint i ++ rest) ≡ some i
unfolding pack_uint unpack_uint
unpack_uint-pack_uint i rest h = ground arith

pub length-pack_uint : (i : ℕ) → length (pack_uint i) ≡ 4
unfolding pack_uint
length-pack_uint i = refl

-- The key of a descriptor and a height below 2 ^ 32 gives both back, and for an empty descriptor
-- there is the error of an invalid key.
pub unpack_address_key-pack_address_key :
    (addr_desc : Bytes) (height : ℕ)
    → height < 2 ^ 32
    → unpack_address_key (pack_address_key addr_desc height)
      ≡ (if leb 1 (length addr_desc) then ok (addr_desc, height) else err invalid_address_key)
unfolding unpack_address_key pack_address_key
unpack_address_key-pack_address_key addr_desc height h =
    let tail = pack_uint (complement32 height) in
    let e : length (addr_desc ++ tail) ≡ length addr_desc + 4 =
      length-append addr_desc tail ∙ ap (λ n. length addr_desc + n) (length-pack_uint _) in
    let i : length (addr_desc ++ tail) - 4 ≡ length addr_desc = omega (arith, e) in
    let u : unpack_uint tail ≡ some (complement32 height) =
      rw append-nil at (unpack_uint-pack_uint (complement32 height) [] (omega arith)) in
    rw i
      (rw (slice_to-append addr_desc tail, slice_from-append addr_desc tail, u) (ground (arith, e)))
