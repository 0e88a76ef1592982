-- ===== src/Base/Codes.antt =====
-- Texts and asset codes. The source compares them with the literals 'XLM', 'USDC' and 'USD'; any other code is
-- only compared for equality, and stands as a number.
use Prim.Native.Nat.{ℕ}
use mathlib.Core.Path.{◌≡◌, refl}
use mathlib.Core.Logic.{◌↔◌}
use mathlib.Core.Bool.{Bool, true, false, ◌&&◌}
use mathlib.Core.List.{List, [], ◌∷◌}
use native.Mathlib.Omega.{arith}
use cross_border_payment_app.Base.Tests.{◌==◌}

-- `===` of two texts, by the codes of their characters
abbrev pub same_text : List ℕ → List ℕ → Bool
same_text [] [] = true
same_text (c ∷ cs) (d ∷ ds) = c == d && same_text cs ds
same_text _ _ = false

pub same_text_iff : (cs ds : List ℕ) → (same_text cs ds ≡ true) ↔ (cs ≡ ds)
same_text_iff [] [] = ground arith
same_text_iff [] (d ∷ ds) = ground arith
same_text_iff (c ∷ cs) [] = ground arith
same_text_iff (c ∷ cs) (d ∷ ds) = ground (arith, same_text_iff cs ds)

pub data Asset : Type 0 where
  xlm usdc usd : Asset
  other : ℕ → Asset

unfoldable pub same_asset : Asset → Asset → Bool
same_asset xlm xlm = true
same_asset usdc usdc = true
same_asset usd usd = true
same_asset (other a) (other b) = a == b
same_asset _ _ = false

pub same_asset_iff : (a b : Asset) → (same_asset a b ≡ true) ↔ (a ≡ b)
unfolding same_asset
same_asset_iff xlm b = ground arith
same_asset_iff usdc b = ground arith
same_asset_iff usd b = ground arith
same_asset_iff (other a) b = ground arith

pub same_asset_refl : (a : Asset) → same_asset a a ≡ true
same_asset_refl a = (same_asset_iff a a).1 refl
