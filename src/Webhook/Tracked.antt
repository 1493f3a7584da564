-- ===== src/Webhook/Tracked.antt =====
-- What a delivery keeps: the rows count the requests, which are few and far apart.
use crypto_gateway_rp.Common.{
  ℕ, ◌≤◌, ◌≡◌, refl, sym, subst, true, false, Option, ◌∷◌, ◌==◌, ==_iff, arith, All, inl, inr,
  Bool-cases, if_cases, if_split,
}
use crypto_gateway_rp.Text.{Text}
use crypto_gateway_rp.Store.{TxStatus, Transaction, Store}
use crypto_gateway_rp.Store.Queries.{update_where, update_where-All, count_where}
use crypto_gateway_rp.Store.Counts.{count-update_same}
use crypto_gateway_rp.Store.Members.{All-Has}
use crypto_gateway_rp.Checkout.{expected_atomic_for_deposit_session}
use crypto_gateway_rp.Webhook.{deliver, Post, claims, count_attempt, mark_delivered, is_active_row}
use crypto_gateway_rp.Deposit.Unique.{has_id}
use crypto_gateway_rp.Webhook.Claims.{
  posts_of, IsPaced, CountsRow, same_id, claim-IsPaced, some_claimed, claims_of_id, claimed_rows,
}

pub record Tracked (i : ℕ) (store : Store) : Type 0 where
  pub alone : count_where (has_id i) store.transactions ≤ 1
  pub paced : IsPaced (posts_of i store.posted)
  pub rows : All (CountsRow i (posts_of i store.posted)) store.transactions

module _ (i now : ℕ) where
  claim_own-Tracked :
      (status : TxStatus) (store : Store)
      → (count_where (claims status now i) store.transactions == 0) ≡ false
      → Tracked i store
      → Tracked i (record store {
        transactions = update_where (claims status now i) (count_attempt now) store.transactions;
        posted = (i, now) ∷ store.posted;
      })
  claim_own-Tracked status store h r =
      let (t, m, k) = some_claimed (claims status now i) store.transactions h in
      let counts =
        All-Has (CountsRow i (posts_of i store.posted)) store.transactions t m r.rows
          (same_id i status now t k) in
      let here : (i == i) ≡ true = (==_iff i i).1 refl in
      record {
        alone = omega (
          arith,
          r.alone,
          count-update_same (claims status now i) (count_attempt now) (has_id i) (λ t. refl)
              store.transactions,
        );
        paced = rw here (claim-IsPaced (posts_of i store.posted) i status now t k counts r.paced);
        rows = rw here (
            claimed_rows i status now (posts_of i store.posted) store.transactions
              (claims_of_id i status now store.transactions r.alone h) r.rows);
      }

  -- The claim of an attempt, with the request that follows it.
  claim-Tracked :
      (status : TxStatus) (id : ℕ) (store : Store)
      → (count_where (claims status now id) store.transactions == 0) ≡ false
      → Tracked i store
      → Tracked i (record store {
        transactions = update_where (claims status now id) (count_attempt now) store.transactions;
        posted = (id, now) ∷ store.posted;
      })
  claim-Tracked status id store h r = elim (Bool-cases (id == i)) [
    | inl e ↦ mine ((==_iff id i).0 e)
    | inr e ↦ record {
      alone = alone_still;
      paced = rw e r.paced;
      rows = rw e (
          update_where-All (CountsRow i (posts_of i store.posted)) (claims status now id)
            (count_attempt now)
            (λ t c k same. absurd (other id i t.id e (same_id id status now t k) same))
            store.transactions r.rows);
    }
  ]
    where
      other : (a b c : ℕ) → (a == b) ≡ false → (c == a) ≡ true → (c == b) ≡ true → ⊥
      other a b c h k l = ground arith

      alone_still :
          count_where
            (has_id i)
            (update_where (claims status now id) (count_attempt now) store.transactions)
          ≤ 1
      alone_still = omega (
        arith,
        r.alone,
        count-update_same (claims status now id) (count_attempt now) (has_id i) (λ t. refl)
            store.transactions,
      )

      mine :
          id ≡ i
          → Tracked i (record store {
            transactions =
                update_where (claims status now id) (count_attempt now) store.transactions;
            posted = (id, now) ∷ store.posted;
          })
      mine q =
          subst
            (λ j.
              (count_where (claims status now j) store.transactions == 0) ≡ false
              → Tracked i (record store {
                transactions =
                    update_where (claims status now j) (count_attempt now) store.transactions;
                posted = (j, now) ∷ store.posted;
              }))
            (sym q) (λ k. claim_own-Tracked status store k r) h

  mark-Tracked :
      (id : ℕ) (store : Store)
      → Tracked i store
      → Tracked i (record store {
        transactions = update_where (is_active_row id) (mark_delivered now) store.transactions;
      })
  mark-Tracked id store r = record {
    alone = omega (
      arith,
      r.alone,
      count-update_same (is_active_row id) (mark_delivered now) (has_id i) (λ t. refl)
          store.transactions,
    );
    paced = r.paced;
    rows =
        update_where-All (CountsRow i (posts_of i store.posted)) (is_active_row id)
          (mark_delivered now)
          (λ t c k same. record { counted = (c same).counted; reached = (c same).reached })
          store.transactions r.rows;
  }

  pub deliver-Tracked :
      (post : Post) (status : TxStatus) (reason : Option Text) (store : Store) (t : Transaction)
      (url : Text)
      → Tracked i store
      → Tracked i (deliver post status reason now store t url)
  unfolding deliver
  deliver-Tracked post status reason store t url h =
      if_split (Tracked i) (count_where (claims status now t.id) store.transactions == 0) (λ e. h)
        (λ e.
          let claimed = claim-Tracked status t.id store e h in
          if_cases (Tracked i)
            (post url t
              (expected_atomic_for_deposit_session store t.wallet_id t.deposit_session_key) reason)
            (mark-Tracked t.id
              (record store {
                transactions =
                    update_where (claims status now t.id) (count_attempt now) store.transactions;
                posted = (t.id, now) ∷ store.posted;
              })
              claimed)
            claimed)
