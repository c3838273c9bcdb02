-- ===== src/Accounts/Pools.antt =====
-- `_assert_pool_invariant` (core/accounts.py): what a transfer that returns has checked.
use mock_sim.Base.{
  ℕ, suc, ◌≡◌, refl, ap, Bool, true, false, not, Option, some, ◌∷◌, Text, ◌⊎◌, inl, inr, subst,
  arith,
}
use mock_sim.Base.Int.{ℤ, pos, negsuc, eqb_ℤ, sum_ℤ}
use mock_sim.Models.{Account, AccountEntry, AccountType, merchant_van}
use mock_sim.Session.{Env, Db, ok, raise_if}
use mock_sim.Session.Rules.{>>=-eq-ok, >>=-eq-ok_reads}
use mock_sim.Errors.{Error, internal}
use mock_sim.Money.{Money}
use mock_sim.Accounts.{
  row, balances, is_empty, get_account, children_of, check_pool_sum, check_family,
  assert_pool_invariant, assert_pool_invariants, internal_transfer, write_pair,
}
use mock_sim.Accounts.Transfer.{
  check_transfer-ReadsOnly, assert_pool_invariant-ReadsOnly, assert_pool_invariants-ReadsOnly,
}

eqb_ℤ-IsEq : (x y : ℤ) → eqb_ℤ x y ≡ true → x ≡ y
eqb_ℤ-IsEq (pos m) (pos n) h = ap pos same
  where
    same : m ≡ n
    same = ground arith
eqb_ℤ-IsEq (pos m) (negsuc n) h = ground arith
eqb_ℤ-IsEq (negsuc m) (pos n) h = ground arith
eqb_ℤ-IsEq (negsuc m) (negsuc n) h = ap negsuc same
  where
    same : m ≡ n
    same = ground arith

raise_if-not_eq-ok :
    (x y : ℤ) (b : Bool) (e : Error) (d d' : Db) (u : Unit {0})
    → eqb_ℤ x y ≡ b
    → raise_if (not b) e d ≡ (ok u, d')
    → x ≡ y
raise_if-not_eq-ok x y true e d d' u is h = eqb_ℤ-IsEq x y is
raise_if-not_eq-ok x y false e d d' u is h = cc

check_pool_sum-ok :
    (env : Env) (q : Account) (d d' : Db) (u : Unit {0})
    → is_empty (children_of env q.iban d.accounts) ≡ false
    → check_pool_sum env q d ≡ (ok u, d')
    → q.balance ≡ sum_ℤ (balances (children_of env q.iban d.accounts))
unfolding check_pool_sum
check_pool_sum-ok env q d d' u s h =
    raise_if-not_eq-ok q.balance (sum_ℤ (balances (children_of env q.iban d.accounts))) _ internal d
      d' u refl (rw s at h)

check_van-ok :
    (env : Env) (c : ℕ) (parent : Text) (van q : Account) (d d' : Db) (u : Unit {0})
    → get_account env (c ∷ parent) d ≡ (ok q, d)
    → check_family env merchant_van (some (c ∷ parent)) van d ≡ (ok u, d')
    → check_pool_sum env q d ≡ (ok u, d')
unfolding check_family
check_van-ok env c parent van q d d' u g h = rw g at h

assert_pool_invariant-ok :
    (env : Env) (iban : Text) (van : Account) (d d' : Db) (u : Unit {0})
    → row iban d.accounts ≡ some van
    → assert_pool_invariant env iban d ≡ (ok u, d')
    → check_family env van.account_type van.parent_iban van d ≡ (ok u, d')
unfolding assert_pool_invariant
assert_pool_invariant-ok env iban van d d' u r h = rw r at h

module _ (env : Env) (src_iban dst_iban : Text) (amount : Money) (narration : Text) where
  -- The end of a transfer that returns: both accounts have passed the check in the last state.
  internal_transfer-asserts :
      (d d' : Db) (p : AccountEntry × AccountEntry)
      → internal_transfer env src_iban dst_iban amount narration d ≡ (ok p, d')
      → (assert_pool_invariant env src_iban d' ≡ (ok tt, d'))
        × (assert_pool_invariant env dst_iban d' ≡ (ok tt, d'))
  unfolding internal_transfer assert_pool_invariants
  internal_transfer-asserts d d' p h =
      let (_, _, h1) =
        >>=-eq-ok_reads _ _ d p d' (check_transfer-ReadsOnly env src_iban dst_iban) h in
      let posted =
        >>=-eq-ok (write_pair env src_iban dst_iban amount narration (env.draw d.draws)) _
          (record d { draws = suc d.draws }) p d' h1 in
      let (_, both, h2) =
        >>=-eq-ok_reads _ _ posted.state p d'
          (assert_pool_invariants-ReadsOnly env src_iban dst_iban) posted.rest in
      let (_, one, other) =
        >>=-eq-ok_reads _ _ posted.state tt posted.state
          (assert_pool_invariant-ReadsOnly env src_iban) both in
      let ended : posted.state ≡ d' = ap (λ q. q.1) h2 in
      (
        subst (λ s. assert_pool_invariant env src_iban s ≡ (ok tt, s)) ended one,
        subst (λ s. assert_pool_invariant env dst_iban s ≡ (ok tt, s)) ended other,
      )

  -- A transfer that returns leaves the pool of a merchant's account balanced: where the source or
  -- the target is a merchant account with a parent that the tenant sees, and the parent has
  -- children that the tenant sees, the parent's balance is the sum of the children's balances.
  pub internal_transfer-IsPooled :
      (d d' : Db) (p : AccountEntry × AccountEntry)
      → internal_transfer env src_iban dst_iban amount narration d ≡ (ok p, d')
      → (iban : Text) → (iban ≡ src_iban) ⊎ (iban ≡ dst_iban)
      → (van : Account) → row iban d'.accounts ≡ some van
      → van.account_type ≡ merchant_van
      → (c : ℕ) (parent : Text) → van.parent_iban ≡ some (c ∷ parent)
      → (q : Account) → get_account env (c ∷ parent) d' ≡ (ok q, d')
      → is_empty (children_of env q.iban d'.accounts) ≡ false
      → q.balance ≡ sum_ℤ (balances (children_of env q.iban d'.accounts))
  internal_transfer-IsPooled d d' p h iban side van r t c parent has q g s =
      check_pool_sum-ok env q d' d' tt s (
        check_van-ok env c parent van q d' d' tt g (
          typed van.account_type van.parent_iban t has
            (assert_pool_invariant-ok env iban van d' d' tt r (passed side))))
    where
      passed :
          (iban ≡ src_iban) ⊎ (iban ≡ dst_iban) → assert_pool_invariant env iban d' ≡ (ok tt, d')
      passed (inl is_src) = rw is_src (internal_transfer-asserts d d' p h).0
      passed (inr is_dst) = rw is_dst (internal_transfer-asserts d d' p h).1

      typed :
          (k : AccountType) (o : Option Text)
          → k ≡ merchant_van
          → o ≡ some (c ∷ parent)
          → check_family env k o van d' ≡ (ok tt, d')
          → check_family env merchant_van (some (c ∷ parent)) van d' ≡ (ok tt, d')
      typed k o is_van is_child e = rw (is_van, is_child) at e
