-- ===== src/Channel/Examples.antt =====
-- Runs of a payment channel, and its theorems at concrete inputs.
use cross_border_payment_app.Channel.{
  Channel, Store, opened, OpenRequest, open_channel, transact, Settlement, pay_recipient,
  closing_tx, close_channel, is_open_of,
}
use cross_border_payment_app.Channel.Conservation.{
  IsValid, open_step, transact_step, here, next, Reach, halves, Reach-IsValid,
}
use cross_border_payment_app.Channel.Lifecycle.{close_channel-final}
use cross_border_payment_app.Base.{
  ℕ, ◌+◌, ◌≡◌, refl, none, some, Option, find_where, [], ◌∷◌, arith, Result, with_status,
  plain_error, xlm, usdc, ok, err, pos,
}

abbrev row : Channel
row = record {
  id = 1;
  user_id = 4;
  sender_public_key = 10;
  recipient_public_key = 11;
  asset = xlm;
  funding_amount = 100;
  sender_balance = 70;
  recipient_balance = 30;
  closing_min_time = 86400;
  status = opened;
  settlement_tx_hash = none;
}

abbrev store : Store
store = record { channels = row ∷ []; next_id = 2 }

abbrev network : Settlement → Result ℕ
network (pay_recipient key asset n) = ok n
network (closing_tx t) = err plain_error

store-IsValid : IsValid 0 store
store-IsValid = record {
  balanced = ((omega arith, omega arith), tt);
  fresh = (omega arith, refl, tt);
}

abbrev request : OpenRequest
request = record {
  user_id = 4;
  sender_public_key = 10;
  recipient_public_key = 12;
  asset = usdc;
  funding_amount = 50;
}

abbrev run :
    Reach store (transact 2 4 (pos 15000000000000) (open_channel (ok tt) 0 86400 request store).1).1
run = next (next here (open_step (ok tt) 0 86400 request)) (transact_step 2 4 (pos 15000000000000))

-- A payment of 0.00000015 from 0.0000050 leaves 0.0000049 and gives 0.0000002.
abbrev paid_half : Option Channel
paid_half =
    find_where (is_open_of 2 4)
      (transact 2 4 (pos 15000000000000) (open_channel (ok tt) 0 86400 request store).1).1.channels

both_rounded_up :
    paid_half
    ≡ some (record row {
      id = 2;
      recipient_public_key = 12;
      asset = usdc;
      funding_amount = 50;
      sender_balance = 49;
      recipient_balance = 2;
    })
unfolding transact open_channel
both_rounded_up = refl

Reach-IsValid_example :
    IsValid
      (0 + halves run)
      (transact 2 4 (pos 15000000000000) (open_channel (ok tt) 0 86400 request store).1).1
Reach-IsValid_example = Reach-IsValid 0 run store-IsValid

closed_once :
    close_channel network (ok tt) 1 4 store ≡ (ok 30, (close_channel network (ok tt) 1 4 store).1)
unfolding close_channel
closed_once = refl

close_channel-final_example :
    let t = (close_channel network (ok tt) 1 4 store).1 in
    (transact 1 4 (pos 1) t ≡ (err (with_status 404), t))
    × (close_channel network (ok tt) 1 4 t ≡ (err (with_status 404), t))
close_channel-final_example =
    close_channel-final 0 network network (ok tt) (ok tt) 1 4 4 30 (pos 1) store
      (close_channel network (ok tt) 1 4 store).1 (close_channel network (ok tt) 1 4 store).1
      store-IsValid closed_once here
