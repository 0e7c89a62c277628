-- ===== src/Glist/Frame.antt =====
-- What a change of one list leaves of another one.
use ukernel_mp.Base.{
  ℕ, ◌≡◌, ◌≢◌, ap, sym, ◌∙◌, true, false, List, has, erase, has_of_erase, Bool-cases, inl, inr,
  false≢true,
}
use ukernel_mp.Glist.Heap.{Ptr, null, Mem}
use ukernel_mp.Glist.Chain.{Nexts-agree, Prevs-agree}
use ukernel_mp.Glist.Inv.{IsGlist}
use ukernel_mp.Glist.Object.{IsChanged, IsReady}
use ukernel_mp.Glist.Remove.{IsOpen}

-- The nodes of `ys` are none of `xs`, and not `node`.
abbrev pub IsApart : List ℕ → List ℕ → ℕ → Type 0
IsApart ys xs node = (a : ℕ) → has a ys ≡ true → (has a xs ≡ false) × (a ≢ node)

-- Lists without a node in common.
abbrev pub IsDisjoint : List ℕ → List ℕ → Type 0
IsDisjoint ys xs = (a : ℕ) → has a ys ≡ true → has a xs ≡ false

pub not_has :
    (a : ℕ) (xs ys : List ℕ)
    → (has a ys ≡ true → has a xs ≡ false)
    → has a xs ≡ true
    → has a ys ≡ false
not_has a xs ys out is = elim (Bool-cases (has a ys)) [
  | inl e ↦ absurd (false≢true (sym (out e) ∙ is))
  | inr e ↦ e
]

pub IsDisjoint-sym : (ys xs : List ℕ) → IsDisjoint ys xs → IsDisjoint xs ys
IsDisjoint-sym ys xs apart a = not_has a xs ys (apart a)

pub not_has-erase : (a b : ℕ) (xs : List ℕ) → has a xs ≡ false → has a (erase b xs) ≡ false
not_has-erase a b xs out = elim (Bool-cases (has a (erase b xs))) [
  | inl e ↦ absurd (false≢true (sym out ∙ has_of_erase a b xs e))
  | inr e ↦ e
]

-- With `x` taken out of `xs`.
pub IsApart-erase :
    (x : ℕ) (xs ys : List ℕ) → IsDisjoint ys xs → has x xs ≡ true → IsApart ys (erase x xs) x
IsApart-erase x xs ys apart is a is_y = (
  not_has-erase a x xs (apart a is_y),
  λ e. false≢true (sym (apart a is_y) ∙ ap (λ b. has b xs) e ∙ is),
)

module _ {S : Type 0} {m g : Mem S} {l node : Ptr} {xs : List ℕ} {s : S}
    (c : IsChanged m g l node xs s) (q : Ptr) (ne : q ≢ l) (ys : List ℕ)
    (apart : IsApart ys xs node) where
  same_nodes :
      (a : ℕ)
      → has a ys ≡ true
      → (g.next a ≡ m.next a) × (g.prev a ≡ m.prev a) × (g.owner a ≡ m.owner a)
  same_nodes a is = let (out, other) = apart a is in c.nodes a out other

  pub IsGlist-kept : IsGlist m q ys → IsGlist g q ys
  IsGlist-kept k =
      let e = c.others q ne in
      record {
        linked = record {
          list = k.linked.list;
          first = ap (λ h. h.first) e ∙ k.linked.first;
          last = ap (λ h. h.last) e ∙ k.linked.last;
          nexts = Nexts-agree m.next g.next ys null (λ a is. (same_nodes a is).0) k.linked.nexts;
          prevs = Prevs-agree m.prev g.prev null ys (λ a is. (same_nodes a is).1) k.linked.prevs;
          distinct = k.linked.distinct;
          nonnull = k.linked.nonnull;
        };
        count = ap (λ h. h.count) e ∙ k.count;
        small = k.small;
        owned = λ a is. (same_nodes a is).2 ∙ k.owned a is;
      }

  pub IsOpen-kept : IsOpen m q ys → IsOpen g q ys
  IsOpen-kept k = record {
    glist = IsGlist-kept k.glist;
    free = ap (λ h. h.lock) (c.others q ne) ∙ k.free;
    cpu = λ e. k.cpu (sym c.cpu ∙ e);
  }

  pub IsReady-kept : (new : Ptr) → IsReady m q new ys → IsReady g q new ys
  IsReady-kept new k = record {
    glist = IsGlist-kept k.glist;
    free = ap (λ h. h.lock) (c.others q ne) ∙ k.free;
    cpu = λ e. k.cpu (sym c.cpu ∙ e);
    is_node = k.is_node;
    new = k.new;
    room = k.room;
  }
