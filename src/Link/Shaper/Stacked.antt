-- ===== src/Link/Shaper/Stacked.antt =====
-- The shaper as a module of the stack: frames pass it unchanged.
use vtun.Common.{refl, length, arith}
use vtun.Link.Shaper.{Time, Shaper, lfd_shaper, shaper_counter}
use vtun.Link.Stack.RoundTrip.{Inverts}

pub shaper-Inverts :
    (now later : Time) (s t : Shaper) → Inverts (lfd_shaper now s) (lfd_shaper later t)
unfolding shaper_counter
shaper-Inverts now later s t = record {
  growth = 0;
  Linked = λ a b. Unit;
  linked = tt;
  inverts = λ a b frame linked fits. (
    (shaper_counter a (length frame) frame).0,
    b,
    frame,
    tt,
    fits.bytes,
    fits.nonempty,
    omega arith,
    refl,
    refl,
  );
}
