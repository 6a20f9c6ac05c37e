-- ===== src/BlockFiles/Plain.antt =====
-- A stand-in for zlib that does not compress, for tests.
use tal_cash.Base.{false, ok, refl, true}
use tal_cash.BlockFiles.{Zlib, ZlibLaws}

instance abbrev pub plain_zlib : Zlib
plain_zlib = record {
  compress = λ raw. raw;
  decompress = λ packed limit.
      ok (record { raw = packed; has_tail = false; eof = true; has_unused = false });
}

pub plain-ZlibLaws : ZlibLaws
plain-ZlibLaws = record { unpacks = λ raw limit h. refl }
