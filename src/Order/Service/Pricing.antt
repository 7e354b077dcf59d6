-- ===== src/Order/Service/Pricing.antt =====
-- The loop of CreateOrder over the parts: stock test and total price.
use ms_ex.Prelude.{
  ℤ, pos, ◌+ℤ◌, ◌≤ℤ◌, leb_ℤ, IsInt64, wrap_int64, add_int64, wrap_int64_id, wrap_int64-add,
  add_int64_lem, add_int64-IsInt64, +ℤ-zero, +ℤ_assoc, ◌≡◌, sym, ap, ◌∙◌, false, List, [], ◌∷◌,
  ◌++◌, All, arith, Bool-cases, inl, inr,
}
use ms_ex.Errors.{Error, sentinel, with_detail, ok, err, component_out_of_stock}
use ms_ex.Wire.{ProtoPart}
use ms_ex.Order.Service.{price_loop}

-- The sum of the prices, without wrap-around.
abbrev pub sum_prices : List ProtoPart → ℤ
sum_prices [] = pos 0
sum_prices (part ∷ parts) = part.price +ℤ sum_prices parts

abbrev pub InStock : ProtoPart → Type 0
InStock part = pos 1 ≤ℤ part.stock_quantity

abbrev pub out_of_stock : ProtoPart → Error
out_of_stock part = with_detail (sentinel component_out_of_stock) part.uuid

InStock-test : (part : ProtoPart) → InStock part → leb_ℤ part.stock_quantity (pos 0) ≡ false
InStock-test part h = ground arith

InStock-of_test : (part : ProtoPart) → leb_ℤ part.stock_quantity (pos 0) ≡ false → InStock part
InStock-of_test part h = ground arith

-- The total carried on, with one more price.
wrap_step :
    (total price rest : ℤ)
    → wrap_int64 (add_int64 total price +ℤ rest) ≡ wrap_int64 (total +ℤ (price +ℤ rest))
wrap_step total price rest =
    ap (λ t. wrap_int64 (t +ℤ rest)) (add_int64_lem total price)
    ∙ wrap_int64-add (total +ℤ price) rest
    ∙ ap wrap_int64 (+ℤ_assoc total price rest)

-- For a start in the range of an int64 and parts that are all in stock, the loop returns the start
-- plus the exact sum of the prices, read as an int64, however often the additions on the way
-- overflow.
pub price_loop_total :
    (total : ℤ) (parts : List ProtoPart)
    → IsInt64 total
    → All InStock parts
    → price_loop total parts ≡ ok (wrap_int64 (total +ℤ sum_prices parts))
unfolding price_loop
price_loop_total total [] range h =
    ap ok (sym (ap wrap_int64 (+ℤ-zero total) ∙ wrap_int64_id total range))
price_loop_total total (part ∷ parts) range (here, rest) = rw (InStock-test part here) (
    price_loop_total (add_int64 total part.price) parts (add_int64-IsInt64 total part.price) rest
    ∙ ap ok (wrap_step total part.price (sum_prices parts)))

-- If the loop returns a total, every part is in stock.
pub price_loop_ok :
    (total : ℤ) (parts : List ProtoPart) {sum : ℤ}
    → price_loop total parts ≡ ok sum
    → All InStock parts
unfolding price_loop
price_loop_ok total [] h = tt
price_loop_ok total (part ∷ parts) h = elim (Bool-cases (leb_ℤ part.stock_quantity (pos 0))) [
  | inl out ↦ cc (rw out at h)
  | inr here ↦
      (InStock-of_test part here, price_loop_ok (add_int64 total part.price) parts (rw here at h))
]

-- For a part that is not in stock, behind parts that all are, the loop returns the out-of-stock
-- error with the id of that part, whatever follows.
pub price_loop_out :
    (total : ℤ) (before : List ProtoPart) (part : ProtoPart) (after : List ProtoPart)
    → All InStock before
    → ¬ InStock part
    → price_loop total (before ++ part ∷ after) ≡ err (out_of_stock part)
unfolding price_loop
price_loop_out total [] part after h out = elim (Bool-cases (leb_ℤ part.stock_quantity (pos 0))) [
  | inl test ↦ rw test
  | inr test ↦ absurd (out (InStock-of_test part test))
]
price_loop_out total (p ∷ before) part after (here, rest) out =
    rw (InStock-test p here) (price_loop_out (add_int64 total p.price) before part after rest out)
