-- ===== src/ListEntry/Add.antt =====
-- Insertion into a ring of list.h.
use nku_os_lab.Base.{
  ℕ, ◌≡◌, ◌≢◌, sym, ◌∙◌, List, [], ◌∷◌, ◌++◌, All-append_left, All-append_right, arith, update,
  update_self,
}
use nku_os_lab.ListEntry.{Links, list_add_between, list_add, list_add_before}
use nku_os_lab.ListEntry.Ring.{
  Fresh, Distinct, Chain, IsRing, last, first, All-last, All-first, Chain-frame, Chain-cut,
  update-Fresh_twice,
}

-- A write to two cells, read at a third.
update_twice_ne : (f : ℕ → ℕ) (u v w z x : ℕ) → x ≢ u → x ≢ w → update (update f u v) w z x ≡ f x
update_twice_ne f u v w z x hu hw = ground arith

-- The new entry right behind `a`.
Chain-list_add_nil :
    (l : Links) (elm a : ℕ) (ys : List ℕ) (b : ℕ)
    → a ≢ elm
    → b ≢ elm
    → Fresh elm ys
    → Distinct (a ∷ ys)
    → Fresh b ys
    → Chain l a ys b
    → Chain (list_add_between elm a (first ys b) l) a (elm ∷ ys) b
unfolding list_add_between
Chain-list_add_nil l elm a [] b ae be fe d fb c = (
  ground arith,
  update_self (update l.prev b elm) elm a,
  (update_self (update l.next a elm) elm b, ground arith),
)
Chain-list_add_nil l elm a (y ∷ ys) b ae be fe d fb c = (
  ground arith,
  update_self (update l.prev y elm) elm a,
  (
    update_self (update l.next a elm) elm y,
    ground (arith, fe.0),
    Chain-frame l (list_add_between elm a y l) y ys b
        (update_twice_ne l.next a elm elm y y d.0.0 fe.0)
        (update-Fresh_twice l.next a elm elm y ys d.0.1 fe.1)
        (update-Fresh_twice l.prev y elm elm a ys d.1.0 fe.1)
        (update_twice_ne l.prev y elm elm a b (λ e. fb.0 (sym e)) be) c.2,
  ),
)

-- Linking `elm` between the two ends of a cut inserts it there.
pub Chain-list_add_between :
    (l : Links) (elm a : ℕ) (xs ys : List ℕ) (b : ℕ)
    → a ≢ elm
    → b ≢ elm
    → Fresh elm (xs ++ ys)
    → Distinct (a ∷ (xs ++ ys))
    → Fresh b (xs ++ ys)
    → Chain l a (xs ++ ys) b
    → Chain (list_add_between elm (last a xs) (first ys b) l) a (xs ++ (elm ∷ ys)) b
unfolding list_add_between
Chain-list_add_between l elm a [] ys b ae be fe d fb c =
    Chain-list_add_nil l elm a ys b ae be fe d fb c
Chain-list_add_between l elm a (x ∷ xs) ys b ae be fe d fb c = (
  update_twice_ne l.next (last x xs) elm elm (first ys b) a
        (λ e. All-last (λ y. y ≢ a) x xs d.0.0 (All-append_left (λ y. y ≢ a) xs ys d.0.1) (sym e))
        ae
      ∙ c.0,
  update_twice_ne l.prev (first ys b) elm elm (last x xs) x
        (λ e.
          All-first (λ y. y ≢ x) ys b (All-append_right (λ y. y ≢ x) xs ys d.1.0)
            (λ q. fb.0 (sym q)) (sym e))
        fe.0
      ∙ c.1,
  Chain-list_add_between l elm x xs ys b fe.0 be fe.1 d.1 fb.1 c.2,
)

Fresh-insert :
    (x elm : ℕ) (xs ys : List ℕ) → elm ≢ x → Fresh x (xs ++ ys) → Fresh x (xs ++ (elm ∷ ys))
Fresh-insert x elm [] ys h f = (h, f)
Fresh-insert x elm (z ∷ xs) ys h f = (f.0, Fresh-insert x elm xs ys h f.1)

pub Distinct-insert :
    (elm : ℕ) (xs ys : List ℕ)
    → Fresh elm (xs ++ ys)
    → Distinct (xs ++ ys)
    → Distinct (xs ++ (elm ∷ ys))
Distinct-insert elm [] ys f d = (f, d)
Distinct-insert elm (x ∷ xs) ys f d =
    (Fresh-insert x elm xs ys (λ e. f.0 (sym e)) d.0, Distinct-insert elm xs ys f.1 d.1)

module _ {l : Links} {h : ℕ} (xs ys : List ℕ) (elm : ℕ) (r : IsRing l h (xs ++ ys))
    (fresh : Fresh elm (h ∷ (xs ++ ys))) where
  list_add_between-IsRing :
      IsRing (list_add_between elm (last h xs) (first ys h) l) h (xs ++ (elm ∷ ys))
  list_add_between-IsRing = record {
    linked =
        Chain-list_add_between l elm h xs ys h fresh.0 fresh.0 fresh.1 r.distinct r.distinct.0
          r.linked;
    distinct = Distinct-insert elm (h ∷ xs) ys fresh r.distinct;
  }

  -- `list_add` at the entry before a cut, or at the head, inserts at the cut.
  pub list_add-IsRing : IsRing (list_add (last h xs) elm l) h (xs ++ (elm ∷ ys))
  unfolding list_add
  list_add-IsRing = rw (Chain-cut l h xs ys h r.linked).0 list_add_between-IsRing

  -- `list_add_before` at the entry behind a cut, or at the head, inserts at the cut.
  pub list_add_before-IsRing : IsRing (list_add_before (first ys h) elm l) h (xs ++ (elm ∷ ys))
  unfolding list_add_before
  list_add_before-IsRing = rw (Chain-cut l h xs ys h r.linked).1 list_add_between-IsRing
