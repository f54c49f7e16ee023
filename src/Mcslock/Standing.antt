-- ===== src/Mcslock/Standing.antt =====
-- port/src/mcslock.rs: the places in the two functions, one kind against another.
use r.Common.{ℕ, ◌≡◌, refl, true, false, some}
use r.Mcslock.{
  Pc, idle, clear_next, clear_locked, swap, spin, holding, check_next, exchange, wait_next,
  hand_over, set_locked, link, release,
}
use r.Mcslock.Inv.{reading, queued, spinning, linking, marked}

pub spinning-queued : (v : Pc) → spinning v ≡ true → queued v ≡ true
spinning-queued idle h = absurd (cc h)
spinning-queued clear_next h = absurd (cc h)
spinning-queued clear_locked h = absurd (cc h)
spinning-queued swap h = absurd (cc h)
spinning-queued spin h = refl
spinning-queued holding h = absurd (cc h)
spinning-queued check_next h = absurd (cc h)
spinning-queued exchange h = absurd (cc h)
spinning-queued wait_next h = absurd (cc h)
spinning-queued hand_over h = absurd (cc h)
spinning-queued (set_locked q) h = absurd (cc h)
spinning-queued (link q) h = absurd (cc h)
spinning-queued (release q) h = absurd (cc h)

pub linking-queued : (v : Pc) (p : ℕ) → linking v ≡ some p → queued v ≡ true
linking-queued idle p h = absurd (cc h)
linking-queued clear_next p h = absurd (cc h)
linking-queued clear_locked p h = absurd (cc h)
linking-queued swap p h = absurd (cc h)
linking-queued spin p h = absurd (cc h)
linking-queued holding p h = absurd (cc h)
linking-queued check_next p h = absurd (cc h)
linking-queued exchange p h = absurd (cc h)
linking-queued wait_next p h = absurd (cc h)
linking-queued hand_over p h = absurd (cc h)
linking-queued (set_locked q) p h = refl
linking-queued (link q) p h = refl
linking-queued (release q) p h = absurd (cc h)

pub linking-spinning : (v : Pc) (p : ℕ) → linking v ≡ some p → spinning v ≡ false
linking-spinning idle p h = absurd (cc h)
linking-spinning clear_next p h = absurd (cc h)
linking-spinning clear_locked p h = absurd (cc h)
linking-spinning swap p h = absurd (cc h)
linking-spinning spin p h = absurd (cc h)
linking-spinning holding p h = absurd (cc h)
linking-spinning check_next p h = absurd (cc h)
linking-spinning exchange p h = absurd (cc h)
linking-spinning wait_next p h = absurd (cc h)
linking-spinning hand_over p h = absurd (cc h)
linking-spinning (set_locked q) p h = refl
linking-spinning (link q) p h = refl
linking-spinning (release q) p h = absurd (cc h)

pub marked-spinning : (v : Pc) → marked v ≡ true → spinning v ≡ false
marked-spinning idle h = absurd (cc h)
marked-spinning clear_next h = absurd (cc h)
marked-spinning clear_locked h = absurd (cc h)
marked-spinning swap h = absurd (cc h)
marked-spinning spin h = absurd (cc h)
marked-spinning holding h = absurd (cc h)
marked-spinning check_next h = absurd (cc h)
marked-spinning exchange h = absurd (cc h)
marked-spinning wait_next h = absurd (cc h)
marked-spinning hand_over h = absurd (cc h)
marked-spinning (set_locked q) h = absurd (cc h)
marked-spinning (link q) h = refl
marked-spinning (release q) h = absurd (cc h)

pub reading-queued : (v : Pc) → reading v ≡ true → queued v ≡ true
reading-queued idle h = absurd (cc h)
reading-queued clear_next h = absurd (cc h)
reading-queued clear_locked h = absurd (cc h)
reading-queued swap h = absurd (cc h)
reading-queued spin h = absurd (cc h)
reading-queued holding h = absurd (cc h)
reading-queued check_next h = absurd (cc h)
reading-queued exchange h = absurd (cc h)
reading-queued wait_next h = absurd (cc h)
reading-queued hand_over h = refl
reading-queued (set_locked q) h = absurd (cc h)
reading-queued (link q) h = absurd (cc h)
reading-queued (release q) h = absurd (cc h)
