-- ===== src/Template/Orders.antt =====
-- The std::map of arguments as the program sees it, by its look-ups only (src/template.hpp and
-- src/template.cpp): a quotient of the association lists, in which the order of assignments to
-- different names is an equation.
use mathlib.Core.Quot
use mathlib.Core.Quot.{Quot, Quot-set}
use native.Mathlib.Decide.{ℕ_discrete}
use std.HLevel.{hedberg}
use simurga.Base.{
  ◌≡◌, ◌≢◌, refl, sym, ap, ◌∙◌, some, [], ◌∷◌, Bytes, Exception, Result, if◌then◌else◌, arith,
}
use simurga.Dict.{Dict, insert, lookup-insert}
use simurga.Template.Arguments.{Argument, ArgumentList}
use simurga.Template.Extensional.{Agree, yield-Agree}
use simurga.Template.Render.{yield}
use simurga.Template.{Tokens}
use simurga.Text.{equal, equal_iff}

Exception-discrete : Discrete Exception
Exception-discrete = hlevel (ℕ_discrete)

page-discrete : Discrete (Result Bytes)
page-discrete = hlevel (ℕ_discrete, Exception-discrete)

page-set : IsSet (Result Bytes)
page-set = hedberg page-discrete

abbrev pub ArgumentMap : Type 0
ArgumentMap = Quot Agree

insert-Agree :
    (k : Bytes) (a : Argument) (m n : ArgumentList)
    → Agree m n
    → Agree (insert k a m) (insert k a n)
insert-Agree k a m n h j =
    lookup-insert k j a m
    ∙ ap (λ o. if equal k j then some a else o) (h j)
    ∙ sym (lookup-insert k j a n)

-- args[k] = a
put : Bytes → Argument → ArgumentMap → ArgumentMap
put k a =
    Quot.lift Quot-set (λ m. Quot.mk (insert k a m)) λ m n h. Quot.sound (insert-Agree k a m n h)

-- PageTemplate::yield
yield_map : Tokens → ArgumentMap → Result Bytes
yield_map ts = Quot.lift page-set (yield ts) λ m n h. yield-Agree m n h ts

insert-swap :
    (k j : Bytes) (a b : Argument) (m : ArgumentList)
    → k ≢ j
    → Agree (insert k a (insert j b m)) (insert j b (insert k a m))
insert-swap k j a b m ne i = ground (
  arith,
  lookup-insert k i a (insert j b m),
  lookup-insert j i b m,
  lookup-insert j i b (insert k a m),
  lookup-insert k i a m,
  equal_iff k i,
  equal_iff j i,
)

put_comm :
    (k j : Bytes) (a b : Argument)
    → k ≢ j
    → (m : ArgumentMap) → put k a (put j b m) ≡ put j b (put k a m)
unfolding put
put_comm k j a b ne = Quot.ind (λ m. Quot-set _ _) λ m. Quot.sound (insert-swap k j a b m ne)

-- Assignments one after the other.
unfoldable pub assign : Dict Argument → ArgumentList → ArgumentList
assign [] args = args
assign ((k, a) ∷ es) args = assign es (insert k a args)

-- Assignments in another order: those to one name keep their order.
pub data IsReordered : Dict Argument → Dict Argument → Type 0 where
  done : IsReordered [] []
  swap :
      {k j : Bytes} {a b : Argument} {es : Dict Argument}
      → k ≢ j
      → IsReordered ((k, a) ∷ (j, b) ∷ es) ((j, b) ∷ (k, a) ∷ es)
  keep :
      {e : Bytes × Argument} {es fs : Dict Argument}
      → IsReordered es fs
      → IsReordered (e ∷ es) (e ∷ fs)
  and_then : {es fs gs : Dict Argument} → IsReordered es fs → IsReordered fs gs → IsReordered es gs

put_all : Dict Argument → ArgumentMap → ArgumentMap
put_all [] m = m
put_all ((k, a) ∷ es) m = put_all es (put k a m)

put_all-mk :
    (es : Dict Argument) (args : ArgumentList)
    → put_all es (Quot.mk args) ≡ Quot.mk (assign es args)
unfolding put_all put assign
put_all-mk [] args = refl
put_all-mk ((k, a) ∷ es) args = put_all-mk es (insert k a args)

put_all-IsReordered :
    {es fs : Dict Argument} → IsReordered es fs → (m : ArgumentMap) → put_all es m ≡ put_all fs m
unfolding put_all
put_all-IsReordered done m = refl
put_all-IsReordered (swap {k} {j} {a} {b} {es} ne) m =
    ap (put_all es) (put_comm j k b a (λ e. ne (sym e)) m)
put_all-IsReordered (keep {e} h) m = put_all-IsReordered h (put e.0 e.1 m)
put_all-IsReordered (and_then h g) m = put_all-IsReordered h m ∙ put_all-IsReordered g m

-- A page does not show in which order its arguments were set, as long as those of one name keep their
-- order.
yield-IsReordered :
    {es fs : Dict Argument} (ts : Tokens) (args : ArgumentList)
    → IsReordered es fs
    → yield ts (assign es args) ≡ yield ts (assign fs args)
unfolding yield_map
yield-IsReordered {es} {fs} ts args h =
    ap (yield_map ts)
      (sym (put_all-mk es args) ∙ put_all-IsReordered h (Quot.mk args) ∙ put_all-mk fs args)
