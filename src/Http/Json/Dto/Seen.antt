-- ===== src/Http/Json/Dto/Seen.antt =====
-- requiredBitSet after the fields of an OrderDto are read: a bit for each required name that stands
-- there.
use Prim.Native.Nat.{bit_or}
use ms_ex.Prelude.{
  ℕ, ◌+◌, String, ◌≡◌, refl, sym, Bool, true, false, some, [], ◌∷◌, inl, inr, arith, ◌||◌, str_eq,
  Option-cases, All, if◌then◌else◌,
}
use ms_ex.Http.Json.{JsonValue, JsonObject, JsonLib, decode_opt_nil}
use ms_ex.Http.Json.Failures.Missing.{present, by_name, or_move}
use ms_ex.Http.Json.Requests.Required.{marks, or-first, or-second}
use ms_ex.Http.Json.Dto.{Decoding, decode_field, decode_fields, names_of_dto}

-- The bits of the four required fields of the first eight.
abbrev pub marks4 : Bool → Bool → Bool → Bool → ℕ
marks4 a b c d = marks a b + (if c then 4 else 0) + (if d then 32 else 0)

or4-1 : (a b c d : Bool) → bit_or (marks4 a b c d) 1 ≡ marks4 true b c d
or4-1 true true true true = refl
or4-1 true true true false = refl
or4-1 true true false true = refl
or4-1 true true false false = refl
or4-1 true false true true = refl
or4-1 true false true false = refl
or4-1 true false false true = refl
or4-1 true false false false = refl
or4-1 false true true true = refl
or4-1 false true true false = refl
or4-1 false true false true = refl
or4-1 false true false false = refl
or4-1 false false true true = refl
or4-1 false false true false = refl
or4-1 false false false true = refl
or4-1 false false false false = refl

or4-2 : (a b c d : Bool) → bit_or (marks4 a b c d) 2 ≡ marks4 a true c d
or4-2 true true true true = refl
or4-2 true true true false = refl
or4-2 true true false true = refl
or4-2 true true false false = refl
or4-2 true false true true = refl
or4-2 true false true false = refl
or4-2 true false false true = refl
or4-2 true false false false = refl
or4-2 false true true true = refl
or4-2 false true true false = refl
or4-2 false true false true = refl
or4-2 false true false false = refl
or4-2 false false true true = refl
or4-2 false false true false = refl
or4-2 false false false true = refl
or4-2 false false false false = refl

or4-4 : (a b c d : Bool) → bit_or (marks4 a b c d) 4 ≡ marks4 a b true d
or4-4 true true true true = refl
or4-4 true true true false = refl
or4-4 true true false true = refl
or4-4 true true false false = refl
or4-4 true false true true = refl
or4-4 true false true false = refl
or4-4 true false false true = refl
or4-4 true false false false = refl
or4-4 false true true true = refl
or4-4 false true true false = refl
or4-4 false true false true = refl
or4-4 false true false false = refl
or4-4 false false true true = refl
or4-4 false false true false = refl
or4-4 false false false true = refl
or4-4 false false false false = refl

or4-32 : (a b c d : Bool) → bit_or (marks4 a b c d) 32 ≡ marks4 a b c true
or4-32 true true true true = refl
or4-32 true true true false = refl
or4-32 true true false true = refl
or4-32 true true false false = refl
or4-32 true false true true = refl
or4-32 true false true false = refl
or4-32 true false false true = refl
or4-32 true false false false = refl
or4-32 false true true true = refl
or4-32 false true true false = refl
or4-32 false true false true = refl
or4-32 false true false false = refl
or4-32 false false true true = refl
or4-32 false false true false = refl
or4-32 false false false true = refl
or4-32 false false false false = refl

-- What a name k and the name before it leave of requiredBitSet.
abbrev Seen : String → Bool → Bool → Bool → Bool → Bool → Bool → Decoding → Type 0
Seen k a b c d e f s' =
    (s'.required0
      ≡ marks4 (str_eq k "order_uuid" || a) (str_eq k "hull_uuid" || b)
          (str_eq k "engine_uuid" || c) (str_eq k "total_price" || d))
    × (s'.required1 ≡ marks (str_eq k "status" || e) (str_eq k "created_at" || f))

module _ (J : JsonLib) (v : JsonValue) (s s' : Decoding) (a b c d e f : Bool) where
  abbrev Step : String → Type 0
  Step k =
      s.required0 ≡ marks4 a b c d
      → s.required1 ≡ marks e f
      → decode_field J k v s ≡ some s'
      → Seen k a b c d e f s'

  at_order_uuid : Step "order_uuid"
  unfolding decode_field decode_opt_nil
  at_order_uuid seen0 seen1 h = ground (arith, h, seen0, seen1, or4-1 a b c d)

  at_hull_uuid : Step "hull_uuid"
  unfolding decode_field decode_opt_nil
  at_hull_uuid seen0 seen1 h = ground (arith, h, seen0, seen1, or4-2 a b c d)

  at_engine_uuid : Step "engine_uuid"
  unfolding decode_field decode_opt_nil
  at_engine_uuid seen0 seen1 h = ground (arith, h, seen0, seen1, or4-4 a b c d)

  at_shield_uuid : Step "shield_uuid"
  unfolding decode_field decode_opt_nil
  at_shield_uuid seen0 seen1 h = ground (arith, h, seen0, seen1)

  at_weapon_uuid : Step "weapon_uuid"
  unfolding decode_field decode_opt_nil
  at_weapon_uuid seen0 seen1 h = ground (arith, h, seen0, seen1)

  at_total_price : Step "total_price"
  unfolding decode_field decode_opt_nil
  at_total_price seen0 seen1 h = ground (arith, h, seen0, seen1, or4-32 a b c d)

  at_transaction_uuid : Step "transaction_uuid"
  unfolding decode_field decode_opt_nil
  at_transaction_uuid seen0 seen1 h = ground (arith, h, seen0, seen1)

  at_payment_method : Step "payment_method"
  unfolding decode_field decode_opt_nil
  at_payment_method seen0 seen1 h = ground (arith, h, seen0, seen1)

  at_status : Step "status"
  unfolding decode_field decode_opt_nil
  at_status seen0 seen1 h = ground (arith, h, seen0, seen1, or-first e f)

  at_created_at : Step "created_at"
  unfolding decode_field decode_opt_nil
  at_created_at seen0 seen1 h = ground (arith, h, seen0, seen1, or-second e f)

  at_other : (k : String) → All (λ n. str_eq k n ≡ false) names_of_dto → Step k
  unfolding decode_field names_of_dto
  at_other k others seen0 seen1 h = ground (arith, h, others, seen0, seen1)

  decode_field-Seen : (k : String) → Step k
  unfolding names_of_dto
  decode_field-Seen k =
      by_name names_of_dto Step k
        (
          at_order_uuid,
          (
            at_hull_uuid,
            (
              at_engine_uuid,
              (
                at_shield_uuid,
                (
                  at_weapon_uuid,
                  (
                    at_total_price,
                    (at_transaction_uuid, (at_payment_method, (at_status, (at_created_at, tt)))),
                  ),
                ),
              ),
            ),
          ),
        )
        (at_other k)

-- What the names of all the fields leave of requiredBitSet.
abbrev pub AllSeen : JsonObject → Bool → Bool → Bool → Bool → Bool → Bool → Decoding → Type 0
AllSeen fields a b c d e f s' =
    (s'.required0
      ≡ marks4 (present "order_uuid" fields || a) (present "hull_uuid" fields || b)
          (present "engine_uuid" fields || c) (present "total_price" fields || d))
    × (s'.required1 ≡ marks (present "status" fields || e) (present "created_at" fields || f))

module _ (J : JsonLib) where
  pub decode_fields-AllSeen :
      (fields : JsonObject) (s s' : Decoding) (a b c d e f : Bool)
      → s.required0 ≡ marks4 a b c d
      → s.required1 ≡ marks e f
      → decode_fields J fields s ≡ some s'
      → AllSeen fields a b c d e f s'
  unfolding decode_fields
  decode_fields-AllSeen [] s s' a b c d e f seen0 seen1 h = ground (arith, h, seen0, seen1)
  decode_fields-AllSeen ((k, v) ∷ fields) s s' a b c d e f seen0 seen1 h =
      elim (Option-cases (decode_field J k v s)) [
        | inl failed ↦ cc (rw (decode_fields, failed) at h)
        | inr (s₁, read) ↦
            let step = decode_field-Seen J v s s₁ a b c d e f k seen0 seen1 read in
            let rest =
              decode_fields-AllSeen fields s₁ s' (str_eq k "order_uuid" || a)
                (str_eq k "hull_uuid" || b) (str_eq k "engine_uuid" || c)
                (str_eq k "total_price" || d) (str_eq k "status" || e) (str_eq k "created_at" || f)
                step.0 step.1 (rw (decode_fields, read) at h) in
            (
              rw
                  (
                    sym (or_move a (str_eq k "order_uuid") (present "order_uuid" fields)),
                    sym (or_move b (str_eq k "hull_uuid") (present "hull_uuid" fields)),
                    sym (or_move c (str_eq k "engine_uuid") (present "engine_uuid" fields)),
                    sym (or_move d (str_eq k "total_price") (present "total_price" fields)),
                  )
                  rest.0,
              rw
                  (
                    sym (or_move e (str_eq k "status") (present "status" fields)),
                    sym (or_move f (str_eq k "created_at") (present "created_at" fields)),
                  )
                  rest.1,
            )
      ]
