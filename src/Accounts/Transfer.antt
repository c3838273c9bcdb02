-- ===== src/Accounts/Transfer.antt =====
-- `internal_transfer` (core/accounts.py): money moves, and none is made or lost.
use mock_sim.Base.{ℕ, suc, ◌≡◌, refl, sym, ap, ◌∙◌, Option, none, some, [], ◌∷◌, Text}
use mock_sim.Base.Int.{ℤ, pos, ◌+ℤ◌, ◌≤ℤ◌, neg_ℤ, int_laws, parts_of_eq}
use mock_sim.Models.{
  Account, AccountEntry, AccountStatus, AccountType, active, dormant, closed, pool, merchant_van,
  external, crdt, dbit,
}
use mock_sim.Session.{Env, Db, Result, ok, err, ◌>>=◌, pure, transaction, close_session}
use mock_sim.Session.Rules.{ReadsOnly, reads_rules, >>=-eq-ok, >>=-eq-ok_reads}
use mock_sim.Money.{Money, minor_units}
use mock_sim.Accounts.{
  write_entry, get_account, assert_account_active, check_status, assert_pool_invariant,
  check_family, check_pool_sum, internal_transfer, check_transfer, write_pair, paired,
  assert_pool_invariants,
}
use mock_sim.Accounts.Table.{IsKeyed, set_balance-IsKeyed, total, total-set_balance}
use mock_sim.Accounts.Ledger.{IsLedger, write_entry-IsLedger}
use mock_sim.Accounts.Total.{write_entry-ok}
use mock_sim.Accounts.Entry.{Writes, written}

pub get_account-ReadsOnly : (env : Env) (iban : Text) → ReadsOnly (get_account env iban)
unfolding get_account
get_account-ReadsOnly env iban = search reads_rules

check_status-ReadsOnly : (s : AccountStatus) → ReadsOnly (check_status s)
unfolding check_status
check_status-ReadsOnly active = search reads_rules
check_status-ReadsOnly dormant = search reads_rules
check_status-ReadsOnly closed = search reads_rules

assert_account_active-ReadsOnly : (a : Account) → ReadsOnly (assert_account_active a)
unfolding assert_account_active
assert_account_active-ReadsOnly a = check_status-ReadsOnly a.status

check_pool_sum-ReadsOnly : (env : Env) (a : Account) → ReadsOnly (check_pool_sum env a)
unfolding check_pool_sum
check_pool_sum-ReadsOnly env a = search reads_rules

check_family-ReadsOnly :
    (env : Env) (t : AccountType) (parent : Option Text) (a : Account)
    → ReadsOnly (check_family env t parent a)
unfolding check_family
check_family-ReadsOnly env merchant_van none a = search reads_rules
check_family-ReadsOnly env merchant_van (some []) a = search reads_rules
check_family-ReadsOnly env merchant_van (some (c ∷ p)) a =
    search (reads_rules, get_account-ReadsOnly, check_pool_sum-ReadsOnly)
check_family-ReadsOnly env pool parent a = check_pool_sum-ReadsOnly env a
check_family-ReadsOnly env external parent a = search reads_rules

pub assert_pool_invariant-ReadsOnly :
    (env : Env) (iban : Text) → ReadsOnly (assert_pool_invariant env iban)
unfolding assert_pool_invariant
assert_pool_invariant-ReadsOnly env iban = search (reads_rules, check_family-ReadsOnly)

module _ (env : Env) (src_iban dst_iban : Text) where
  pub check_transfer-ReadsOnly : ReadsOnly (check_transfer env src_iban dst_iban)
  unfolding check_transfer
  check_transfer-ReadsOnly =
      search (reads_rules, get_account-ReadsOnly, assert_account_active-ReadsOnly) depth 12

  pub assert_pool_invariants-ReadsOnly : ReadsOnly (assert_pool_invariants env src_iban dst_iban)
  unfolding assert_pool_invariants
  assert_pool_invariants-ReadsOnly = search (reads_rules, assert_pool_invariant-ReadsOnly)

module _ (env : Env) (src_iban dst_iban : Text) (amount : Money) (narration : Text) where
  -- A debit, then a credit in the state that the debit left.
  pub record Moves (transfer_id : ℕ) (d d' : Db) : Type 0 where
    pub src : Account
    pub dst : Account
    pub taken : ℤ
    pub given : ℤ
    pub between : Db
    pub debit : Writes env src_iban amount dbit (paired narration dst_iban transfer_id) d src taken
    pub debited :
        between
        ≡ written env src_iban amount dbit (paired narration dst_iban transfer_id) src taken d
    pub credit :
        Writes env dst_iban amount crdt (paired narration src_iban transfer_id) between dst given
    pub credited :
        d'
        ≡ written env dst_iban amount crdt (paired narration src_iban transfer_id) dst given between

  write_pair-Moves :
      (id : ℕ) (d d' : Db) (p : AccountEntry × AccountEntry)
      → write_pair env src_iban dst_iban amount narration id d ≡ (ok p, d')
      → Moves id d d'
  unfolding write_pair
  write_pair-Moves id d d' p h =
      let first =
        >>=-eq-ok (write_entry env src_iban amount dbit (paired narration dst_iban id))
          (λ debit_entry.
            write_entry env dst_iban amount crdt (paired narration src_iban id) >>= λ credit_entry.
            pure (debit_entry, credit_entry))
          d p d' h in
      let second =
        >>=-eq-ok (write_entry env dst_iban amount crdt (paired narration src_iban id))
          (λ credit_entry. pure (first.value, credit_entry)) first.state p d' first.rest in
      let (src, taken, debited, debit) =
        write_entry-ok env src_iban amount dbit (paired narration dst_iban id) d first.value
          first.state first.head in
      let (dst, given, credited, credit) =
        write_entry-ok env dst_iban amount crdt (paired narration src_iban id) first.state
          second.value second.state second.head in
      record {
        src = src;
        dst = dst;
        taken = taken;
        given = given;
        between = first.state;
        debit = debit;
        debited = debited;
        credit = credit;
        credited = ap (λ q. q.1) (sym second.rest) ∙ credited;
      }

  internal_transfer-Moves :
      (d d' : Db) (p : AccountEntry × AccountEntry)
      → internal_transfer env src_iban dst_iban amount narration d ≡ (ok p, d')
      → Moves (env.draw d.draws) (record d { draws = suc d.draws }) d'
  unfolding internal_transfer
  internal_transfer-Moves d d' p h =
      let (_, _, h1) =
        >>=-eq-ok_reads _ _ d p d' (check_transfer-ReadsOnly env src_iban dst_iban) h in
      let posted =
        >>=-eq-ok (write_pair env src_iban dst_iban amount narration (env.draw d.draws)) _
          (record d { draws = suc d.draws }) p d' h1 in
      let (_, _, h2) =
        >>=-eq-ok_reads _ _ posted.state p d'
          (assert_pool_invariants-ReadsOnly env src_iban dst_iban) posted.rest in
      write_pair-Moves (env.draw d.draws) _ d' posted.value
        (posted.head ∙ ap (λ (s : Db). (ok posted.value, s)) (ap (λ q. q.1) h2))

  -- The same amount is taken and given.
  pub Moves-total :
      (id : ℕ) (d d' : Db)
      → IsKeyed d.accounts
      → Moves id d d'
      → total d'.accounts ≡ total d.accounts
  Moves-total id d d' k m =
      let same_units : m.taken ≡ m.given = cc (sym m.debit.reads ∙ m.credit.reads) in
      let out =
        total-set_balance env.wall src_iban (m.src.balance +ℤ neg_ℤ m.taken) d.accounts m.src k
          m.debit.found in
      let into =
        total-set_balance env.wall dst_iban (m.dst.balance +ℤ m.given) m.between.accounts m.dst
          (rw m.debited
            (set_balance-IsKeyed env.wall src_iban (m.src.balance +ℤ neg_ℤ m.taken) d.accounts k))
          m.credit.found in
      rw m.credited (
        moved (total d.accounts) (total m.between.accounts) _ m.src.balance m.dst.balance m.taken
          m.given same_units (rw m.debited out) into)
    where
      moved :
          (t t' t'' b b' n n' : ℤ)
          → n ≡ n'
          → t' +ℤ b ≡ t +ℤ (b +ℤ neg_ℤ n)
          → t'' +ℤ b' ≡ t' +ℤ (b' +ℤ n')
          → t'' ≡ t
      moved t t' t'' b b' n n' e out into = omega (
        int_laws,
        parts_of_eq n n' e,
        parts_of_eq (t' +ℤ b) (t +ℤ (b +ℤ neg_ℤ n)) out,
        parts_of_eq (t'' +ℤ b') (t' +ℤ (b' +ℤ n')) into,
      )

  Moves-IsLedger :
      (id : ℕ) (d d' : Db) (units : ℤ)
      → minor_units amount ≡ ok units
      → pos 0 ≤ℤ units
      → IsLedger d
      → Moves id d d'
      → IsLedger d'
  Moves-IsLedger id d d' units r h l m =
      let l' =
        write_entry-IsLedger env src_iban amount dbit (paired narration dst_iban id) d units r h
          l in
      let l'' =
        write_entry-IsLedger env dst_iban amount crdt (paired narration src_iban id) m.between units
          r h (rw (m.debit.result, ← m.debited) at l') in
      rw m.credited (rw m.credit.result at l'')

  -- A transfer that runs as a transaction makes and loses no money: the sum of all balances is what
  -- it was, whether it returns or raises.
  pub internal_transfer-total :
      (d : Db)
      → IsKeyed d.accounts
      → total (transaction (internal_transfer env src_iban dst_iban amount narration) d).1.accounts
        ≡ total d.accounts
  internal_transfer-total d k =
      ended (internal_transfer env src_iban dst_iban amount narration d).0
        (internal_transfer env src_iban dst_iban amount narration d).1 refl
    where
      ended :
          (r : Result (AccountEntry × AccountEntry)) (s : Db)
          → internal_transfer env src_iban dst_iban amount narration d ≡ (r, s)
          → total (close_session r d s).1.accounts ≡ total d.accounts
      ended (ok p) s h =
          Moves-total (env.draw d.draws) (record d { draws = suc d.draws }) s k
            (internal_transfer-Moves d s p h)
      ended (err e) s h = refl

  -- A transfer of an amount that is not negative, run as a transaction, keeps the ledger, whether it
  -- returns or raises: each balance stays the signed sum of the account's entries, available and not
  -- below zero.
  pub internal_transfer-IsLedger :
      (d : Db) (units : ℤ)
      → minor_units amount ≡ ok units
      → pos 0 ≤ℤ units
      → IsLedger d
      → IsLedger (transaction (internal_transfer env src_iban dst_iban amount narration) d).1
  internal_transfer-IsLedger d units u h l =
      ended (internal_transfer env src_iban dst_iban amount narration d).0
        (internal_transfer env src_iban dst_iban amount narration d).1 refl
    where
      ended :
          (r : Result (AccountEntry × AccountEntry)) (s : Db)
          → internal_transfer env src_iban dst_iban amount narration d ≡ (r, s)
          → IsLedger (close_session r d s).1
      ended (ok p) s e =
          let l' =
            Moves-IsLedger (env.draw d.draws) (record d { draws = suc d.draws }) s units u h
              (record { keyed = l.keyed; sound = l.sound }) (internal_transfer-Moves d s p e) in
          record { keyed = l'.keyed; sound = l'.sound }
      ended (err e) s _ = l
