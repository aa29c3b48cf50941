-- ===== src/Link/Compress/Copies.antt =====
-- Stand-ins for the two libraries, which copy: their laws can hold.
use vtun.Common.{
  ℕ, ◌∙◌, refl, ap, some, pos, min, length, take, take-of_le, replicate, length-replicate, arith,
}
use vtun.Link.Compress.Zlib.{Stream, Zlib, Streams}
use vtun.Link.Compress.Zlib.RoundTrip.{Linked}
use vtun.Link.Compress.Lzo.{Lzo}

abbrev pub copies : Lzo
copies = record {
  lzo1x_999_compress = λ b. (pos 0, b);
  lzo1x_1_15_compress = λ b. (pos 0, b);
  lzo1x_decompress = λ b. (pos 0, b);
  compresses = λ b bytes some_byte. (
    (b, refl, bytes, some_byte, omega arith, refl),
    b,
    refl,
    bytes,
    some_byte,
    omega arith,
    refl,
  );
}

-- A stream that copies what fits.
abbrev pub copy : Stream Unit
copy s b room = (pos 0, s, min room (length b), take room b)

abbrev pub copying : Zlib
copying = record {
  Deflate = Unit;
  Inflate = Unit;
  deflate_init = λ level. some tt;
  inflate_init = some tt;
  deflate = copy;
  inflate = copy;
  growth = 0;
  small = omega arith;
  compress = λ d b. (d, b);
  deflate-compress = λ d b room some_byte fits.
      ap (λ n. (pos 0, d, n, take room b)) (omega (arith, fits))
      ∙ ap (λ t. (pos 0, d, length b, t)) (take-of_le room b (omega (arith, fits)));
  compress_growth = λ d b h. omega arith;
  compress_some = λ d b some_byte. some_byte;
  compress-IsBytes = λ d b bytes. bytes;
  Synced = λ d i. Unit;
  Synced-init = λ level d i made made_too. tt;
  inflates = λ d i b room same bytes some_byte fits. (
    i,
    ap (λ n. (pos 0, i, n, take room b)) (omega (arith, fits))
        ∙ ap (λ t. (pos 0, i, length b, t)) (take-of_le room b (omega (arith, fits))),
    tt,
  );
}

abbrev pub roomy : Streams copying
roomy = record { zd = tt; zi = tt; zbuf = replicate 2248 0 }

pub roomy-Linked : Linked copying roomy roomy
roomy-Linked = record {
  synced = tt;
  room = omega (arith, length-replicate {A = ℕ} 2248 0);
  peer_room = omega (arith, length-replicate {A = ℕ} 2248 0);
}
