-- ===== src/Plan/Buffers/Access.antt =====
-- src/core/executor/execution_plan.cc: the inner loop of `parseRemoteBuffer`.
use Prim.Native.String.{String}
use mscclpp.Base.{
  ℕ, ◌+◌, ◌≡◌, refl, sym, ap, ◌∙◌, subst, ◌≢◌, inl, inr, Bool, true, false, not, ◌&&◌, List, [],
  ◌∷◌, Result, ok, >>=-eq-ok, ◌==◌, ==_self, if◌then◌else◌, Bool-cases, arith, bit,
}
use mscclpp.Plan.Types.{ChannelType, convert_to_channel_type}
use mscclpp.Plan.Buffers.{Buffers, same_channel, add_access, parse_access, accesses, distinct}

same_channel-eq : (c d : ChannelType) → same_channel c d ≡ true → c ≡ d
same_channel-eq c d h = ground arith

and_false : (x : Bool) → (x && false) ≡ false
and_false true = refl
and_false false = refl

and_not-true : (x y : Bool) → (not x && y) ≡ true → (x ≡ false) × (y ≡ true)
and_not-true x y h = ground arith

different : (i j : ℕ) → i ≢ j → (i == j) ≡ false
different i j ne = ground arith

pub pair-inj :
    (b t : Buffers) (cs ds : List ChannelType)
    → ◌≡◌ {A = Result (Buffers × List ChannelType)} (ok (b, cs)) (ok (t, ds))
    → (b ≡ t) × (cs ≡ ds)
pair-inj b t cs ds h = (cc, cc)

pub buffers-inj : (b t : Buffers) → ok b ≡ ok t → b ≡ t
buffers-inj b t h = cc

-- What the inner loop does to the counts and indexes, when it meets each type of channel once.
pub record Accessed (id : ℕ) (b t : Buffers) (cs : List ChannelType) : Type 0 where
  pub infos : t.infos ≡ b.infos
  pub count : (c : ChannelType) → t.count c ≡ bit (accesses c cs) + b.count c
  pub own : (c : ChannelType) → t.index id c ≡ (if accesses c cs then b.count c else b.index id c)
  pub others : (i : ℕ) (c : ChannelType) → id ≢ i → t.index i c ≡ b.index i c

add_access-Accessed :
    (id : ℕ) (c : ChannelType) (b t : Buffers) (cs : List ChannelType)
    → accesses c cs ≡ false
    → Accessed id (add_access id c b) t cs
    → Accessed id b t (c ∷ cs)
unfolding add_access
add_access-Accessed id c b t cs fresh a = record {
  infos = a.infos;
  count = λ d. elim (Bool-cases (same_channel c d)) [
    | inl s ↦
        let e = same_channel-eq c d s in
        let unseen : accesses d cs ≡ false = subst (λ x. accesses x cs ≡ false) e fresh in
        let same = ap b.count e in let n = a.count d in rw s (ground (arith, n, s, unseen, same))
    | inr s ↦ let n = rw s at (a.count d) in rw s n
  ];
  own = λ d. elim (Bool-cases (same_channel c d)) [
    | inl s ↦
        let e = same_channel-eq c d s in
        let unseen : accesses d cs ≡ false = subst (λ x. accesses x cs ≡ false) e fresh in
        let n = a.own d in rw s (n ∙ rw unseen (rw (s, ==_self id) (ap b.count e)))
    | inr s ↦ let n = rw (s, and_false (id == id)) at (a.own d) in rw s n
  ];
  others = λ i d ne. a.others i d ne ∙ (rw (different id i ne) refl);
}

pub parse_access-Accessed :
    (id : ℕ) (ws : List String) (b t : Buffers) (cs : List ChannelType)
    → parse_access id ws b ≡ ok (t, cs)
    → distinct cs ≡ true
    → Accessed id b t cs
unfolding parse_access
parse_access-Accessed id [] b t cs h d =
    let (e, e') = pair-inj b t [] cs h in
    subst (λ x. Accessed id b t x) e'
      (subst (λ x. Accessed id b x []) e
        (record {
          infos = refl;
          count = λ c. omega arith;
          own = λ c. refl;
          others = λ i c ne. refl;
        }))
parse_access-Accessed id (w ∷ ws) b t cs h d =
    let (c, e, h1) = >>=-eq-ok (convert_to_channel_type w) _ h in
    let ((t', cs'), e', h2) = >>=-eq-ok (parse_access id ws (add_access id c b)) _ h1 in
    let (et, ec) = pair-inj t' t (c ∷ cs') cs h2 in
    let d' : distinct (c ∷ cs') ≡ true = subst (λ x. distinct x ≡ true) (sym ec) d in
    let (fresh, d'') = and_not-true (accesses c cs') (distinct cs') d' in
    subst (λ x. Accessed id b t x) ec
      (subst (λ x. Accessed id b x (c ∷ cs')) et
        (add_access-Accessed id c b t' cs' fresh
          (parse_access-Accessed id ws (add_access id c b) t' cs' e' d'')))

pub parse_access-infos :
    (id : ℕ) (ws : List String) (b t : Buffers) (cs : List ChannelType)
    → parse_access id ws b ≡ ok (t, cs)
    → t.infos ≡ b.infos
unfolding parse_access add_access
parse_access-infos id [] b t cs h = let (e, _) = pair-inj b t [] cs h in sym (ap (λ x. x.infos) e)
parse_access-infos id (w ∷ ws) b t cs h =
    let (c, e, h1) = >>=-eq-ok (convert_to_channel_type w) _ h in
    let ((t', cs'), e', h2) = >>=-eq-ok (parse_access id ws (add_access id c b)) _ h1 in
    let (et, _) = pair-inj t' t (c ∷ cs') cs h2 in
    sym (ap (λ x. x.infos) et) ∙ parse_access-infos id ws (add_access id c b) t' cs' e'
