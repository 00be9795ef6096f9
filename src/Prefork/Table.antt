-- ===== src/Prefork/Table.antt =====
-- The worker list: counting, and what a write and an unlink do to it.
use netprog_assignments.Base.{
  ℕ, suc, ◌+◌, ◌≡◌, refl, ◌≢◌, Bool, true, false, none, some, List, [], ◌∷◌, arith, length, ℤ,
  eq_ℤ-true,
}
use netprog_assignments.Prefork.{Worker, find, store, unlink}

abbrev pub to_nat : Bool → ℕ
to_nat true = 1
to_nat false = 0

unfoldable pub idle_count : List Worker → ℕ
idle_count [] = 0
idle_count (w ∷ ws) = to_nat w.is_idle + idle_count ws

-- No two entries have one pid.
abbrev pub IsDistinct : List Worker → Type 0
IsDistinct [] = Unit {0}
IsDistinct (w ∷ ws) = (find w.pid ws ≡ none) × IsDistinct ws

pub find-pid : (p : ℤ) (ws : List Worker) (w : Worker) → find p ws ≡ some w → w.pid ≡ p
unfolding find
find-pid p [] w h = ground arith
find-pid p (x ∷ ws) w h = ground (arith, find-pid p ws w, eq_ℤ-true x.pid p)

module _ (p : ℤ) (f : Worker → Worker) (same : (w : Worker) → (f w).pid ≡ w.pid) where
  pub length-store : (ws : List Worker) → length (store p f ws) ≡ length ws
  unfolding store
  length-store [] = refl
  length-store (x ∷ ws) = ground (arith, length-store ws)

  pub find-store-none : (q : ℤ) (ws : List Worker) → find q ws ≡ none → find q (store p f ws) ≡ none
  unfolding find store
  find-store-none q [] h = refl
  find-store-none q (x ∷ ws) h = ground (arith, find-store-none q ws, same x)

  pub store-IsDistinct : (ws : List Worker) → IsDistinct ws → IsDistinct (store p f ws)
  unfolding store
  store-IsDistinct [] d = tt
  store-IsDistinct (x ∷ ws) d =
      ground (arith, store-IsDistinct ws d.1, find-store-none x.pid ws d.0, same x)

  pub find-store_self :
      (ws : List Worker) (w : Worker) → find p ws ≡ some w → find p (store p f ws) ≡ some (f w)
  unfolding find store
  find-store_self [] w h = ground arith
  find-store_self (x ∷ ws) w h = ground (arith, find-store_self ws w, same x)

  pub idle_count-store :
      (ws : List Worker) (w : Worker)
      → find p ws ≡ some w
      → idle_count (store p f ws) + to_nat w.is_idle ≡ idle_count ws + to_nat (f w).is_idle
  unfolding find store idle_count
  idle_count-store [] w h = ground arith
  idle_count-store (x ∷ ws) w h = ground (arith, idle_count-store ws w)

module _ (p : ℤ) where
  pub find-unlink-none : (q : ℤ) (ws : List Worker) → find q ws ≡ none → find q (unlink p ws) ≡ none
  unfolding find unlink
  find-unlink-none q [] h = refl
  find-unlink-none q (x ∷ ws) h = ground (arith, find-unlink-none q ws)

  pub unlink-IsDistinct : (ws : List Worker) → IsDistinct ws → IsDistinct (unlink p ws)
  unfolding unlink
  unlink-IsDistinct [] d = tt
  unlink-IsDistinct (x ∷ ws) d =
      ground (arith, unlink-IsDistinct ws d.1, find-unlink-none x.pid ws d.0)

  pub find-unlink_self : (ws : List Worker) → IsDistinct ws → find p (unlink p ws) ≡ none
  unfolding find unlink
  find-unlink_self [] d = refl
  find-unlink_self (x ∷ ws) d = ground (arith, find-unlink_self ws d.1, eq_ℤ-true x.pid p, d.0)

  pub length-unlink :
      (ws : List Worker) (w : Worker) → find p ws ≡ some w → suc (length (unlink p ws)) ≡ length ws
  unfolding find unlink
  length-unlink [] w h = ground arith
  length-unlink (x ∷ ws) w h = ground (arith, length-unlink ws w)

  pub idle_count-unlink :
      (ws : List Worker) (w : Worker)
      → find p ws ≡ some w
      → idle_count (unlink p ws) + to_nat w.is_idle ≡ idle_count ws
  unfolding find unlink idle_count
  idle_count-unlink [] w h = ground arith
  idle_count-unlink (x ∷ ws) w h = ground (arith, idle_count-unlink ws w)

module _ (p q : ℤ) (apart : q ≢ p) where
  pub find-store_ne :
      (f : Worker → Worker) (same : (w : Worker) → (f w).pid ≡ w.pid) (ws : List Worker)
      → find q (store p f ws) ≡ find q ws
  unfolding find store
  find-store_ne f same [] = refl
  find-store_ne f same (x ∷ ws) =
      ground (arith, find-store_ne f same ws, same x, eq_ℤ-true x.pid p, eq_ℤ-true x.pid q)

  pub find-unlink_ne : (ws : List Worker) → find q (unlink p ws) ≡ find q ws
  unfolding find unlink
  find-unlink_ne [] = refl
  find-unlink_ne (x ∷ ws) = ground (arith, find-unlink_ne ws, eq_ℤ-true x.pid p, eq_ℤ-true x.pid q)
