-- ===== src/Bus/Servers.antt =====
-- bus.go: the servers of services.
use Prim.Native.String.{String}
use text.Mathlib.Text.{◌==◌ as str_eq}
use mathlib.Core.Path.{subst}
use text.Mathlib.TextPositions.{eq_refl}
use conductor_ros.Prelude.{ℕ, ◌≡◌, refl, sym, ap, Bool, true, false, Option, none, some}
use conductor_ros.Bus.Inproc.{Bus, put_at, serve, find_server}

module _ {A : Type 0} where
  abbrev with_server : String → ℕ → Bus A → Bus A
  with_server service h b = record b { servers = put_at b.servers service (some h) }

  serve_accepted :
      (service : String) (h : ℕ) (b b' : Bus A)
      → serve service h b ≡ (true, b')
      → b' ≡ with_server service h b
  unfolding serve
  serve_accepted service h b b' e = taken (b.servers service) e
    where
      taken :
          (k : Option ℕ)
          → (elim k as (λ _. Bool × Bus A) [
            | some _ ↦ (false, b)
            | none ↦ (true, with_server service h b)
          ])
            ≡ (true, b')
          → b' ≡ with_server service h b
      taken (some _) q = absurd (cc q)
      taken none q = sym (ap (λ (r : Bool × Bus A). r.1) q)

  abbrev Served : String → String → ℕ → ℕ → Bus A → Bus A → Type 0
  Served service other h h' b b' =
      (find_server service b' ≡ some h)
      × (serve service h' b' ≡ (false, b'))
      × (find_server other b' ≡ find_server other b)

  served :
      (service other : String) (h h' : ℕ) (b : Bus A)
      → str_eq service other ≡ false
      → Served service other h h' b (with_server service h b)
  unfolding serve find_server
  served service other h h' b e =
      (rw (eq_refl service) refl, rw (serve, eq_refl service) refl, rw e refl)

  -- After a server was accepted, calls of its service find its handler, another server of the
  -- service is refused and changes nothing, and calls of each other service find what they
  -- found before.
  pub serve_once :
      (service other : String) (h h' : ℕ) (b b' : Bus A)
      → serve service h b ≡ (true, b')
      → str_eq service other ≡ false
      → (find_server service b' ≡ some h)
        × (serve service h' b' ≡ (false, b'))
        × (find_server other b' ≡ find_server other b)
  serve_once service other h h' b b' e apart =
      subst (λ (x : Bus A). Served service other h h' b x) (sym (serve_accepted service h b b' e))
        (served service other h h' b apart)
