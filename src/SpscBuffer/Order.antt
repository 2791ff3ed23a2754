-- ===== src/SpscBuffer/Order.antt =====
-- What goes into the ring of vr/vr_common/src/vr/mc/lf_spsc_buffer.h comes out, once and in order.
use vrt.Base.{ℕ, ◌≡◌, refl, sym, ap, ◌∙◌, List, [], ◌∷◌, ◌++◌}
use mathlib.Core.List.{append_assoc, append-nil}
use vrt.SpscBuffer.Defs.{IsCapacity, new}
use vrt.SpscBuffer.System.{System, Event, put, got, quiet, Reach, here, next, puts, gots}
use vrt.SpscBuffer.Inv.{Reach-Ordered}
use vrt.SpscBuffer.Refine.{Fifo, contents, Step-Fifo}

module _ {T : Type 0} where
  pub puts-append :
      (es : List (Event T)) (e : Event T) → puts (es ++ (e ∷ [])) ≡ puts es ++ puts (e ∷ [])
  unfolding puts
  puts-append [] e = refl
  puts-append (put v ∷ es) e = ap (λ xs. v ∷ xs) (puts-append es e)
  puts-append (got v ∷ es) e = puts-append es e
  puts-append (quiet ∷ es) e = puts-append es e

  pub gots-append :
      (es : List (Event T)) (e : Event T) → gots (es ++ (e ∷ [])) ≡ gots es ++ gots (e ∷ [])
  unfolding gots
  gots-append [] e = refl
  gots-append (put v ∷ es) e = gots-append es e
  gots-append (got v ∷ es) e = ap (λ xs. v ∷ xs) (gots-append es e)
  gots-append (quiet ∷ es) e = gots-append es e

  -- An event of a queue keeps what went in equal to what came out and is in.
  balance :
      (cap : ℕ) (e : Event T) (ins outs before after : List T)
      → Fifo cap e before after
      → ins ≡ outs ++ before
      → ins ++ puts (e ∷ []) ≡ (outs ++ gots (e ∷ [])) ++ after
  unfolding puts gots
  balance cap (put v) ins outs before after (_, f) h = simp (append_assoc, append-nil, h, f) refl
  balance cap (got v) ins outs before after f h = simp (append_assoc, append-nil, h, f) refl
  balance cap quiet ins outs before after f h = simp (append_assoc, append-nil, h, f) refl

  -- In every state that the two threads reach, the values that were put are those that came out,
  -- followed by those that are in the ring: none is lost, doubled or out of its turn.
  pub Reach-Fifo :
      {cap : ℕ} {initial : T} {es : List (Event T)} {s : System T}
      → IsCapacity cap
      → Reach cap initial es s
      → puts es ≡ gots es ++ contents cap s.buffer
  unfolding puts gots new
  Reach-Fifo is_capacity here = refl
  Reach-Fifo {cap} is_capacity (next {es = es} {s = s} {t = t} {e = e} r st) =
      puts-append es e
      ∙ balance cap e (puts es) (gots es) (contents cap s.buffer) (contents cap t.buffer)
          (Step-Fifo cap is_capacity st (Reach-Ordered r)) (Reach-Fifo is_capacity r)
      ∙ ap (λ xs. xs ++ contents cap t.buffer) (sym (gots-append es e))
