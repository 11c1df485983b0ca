-- ===== src/Tls/Total.antt =====
-- tls/tls.go: Unmarshal returns: it neither panics nor loops for ever.
mod Steps
use certificate_transparency.Prelude.{
  not, &&_split, ℕ, zero, suc, ◌+◌, ◌≤◌, ◌<◌, ◌≡◌, inl, inr, refl, Bool, true, false, ◌&&◌, Option,
  none, some, List, [], ◌∷◌, ltb, arith, length, take, drop, Bool-cases, &&_split, inl, inr, ge→ltb,
}
use certificate_transparency.Prelude.Text.{Text, Map}
use certificate_transparency.Prelude.Outcome.{
  ok, err, panic, diverge, ◌>>=◌, ◌>>◌, Returns, ok-Returns, err-Returns, >>=-Returns,
}
use certificate_transparency.Tls.Bounds.{Within, parse_field-Within}
use certificate_transparency.Tls.Tag.{
  truncated_array, is_empty, truncated_slice, Message, FieldInfo, Result, field_name,
  field_tag_to_field_info, check,
}
use certificate_transparency.Tls.Types.{
  GoType, Fields, uint8, uint16, uint24, uint32, uint64, enum, byte_array, array, bytes, slice,
  named_byte_array, named_bytes, struct, other, done, field, pointer, hidden, hidden_pointer,
}
use certificate_transparency.Tls.Parse.{
  unmarshal_with_params, var_value, count_of, need_selector, non_nil, require, parse_field,
  parse_fields, parse_elems, read_var_uint, enum_value, remember, refuse_select, choose, check_seen,
}
use certificate_transparency.Tls.Codable.{is_proper, fields_are_proper, takes_input}
use certificate_transparency.Tls.Total.Steps.{
  require-Returns, check-Returns, fixed_Returns, read_var_uint-Returns, read_count,
  refuse_select-Returns, need_selector-Returns, choose-Returns, check_seen-Returns, tagged_Returns,
  parse_elems-Returns, vector_Returns, named_Returns, either_Returns, params_Returns,
}

mutual
  unfolding parse_field is_proper

  parse_field-Returns :
      (t : GoType) (input : List ℕ) (o : ℕ) (info : Option FieldInfo)
      → is_proper t ≡ true
      → o ≤ length input
      → Returns (parse_field t input o info)
  parse_field-Returns uint8 input o info p start = fixed_Returns (drop o input) 1 _ _ _
  parse_field-Returns uint16 input o info p start = fixed_Returns (drop o input) 2 _ _ _
  parse_field-Returns uint24 input o info p start = fixed_Returns (drop o input) 3 _ _ _
  parse_field-Returns uint32 input o info p start = fixed_Returns (drop o input) 4 _ _ _
  parse_field-Returns uint64 input o info p start = fixed_Returns (drop o input) 8 _ _ _
  parse_field-Returns enum input o info p start =
      >>=-Returns (read_var_uint (drop o input) info) _ (read_var_uint-Returns (drop o input) info)
        (λ x read.
          >>=-Returns (count_of info) _ (read_count (drop o input) info x read)
            (λ count _. ok-Returns (o + count, x)))
  parse_field-Returns (byte_array n) input o info p start = fixed_Returns (drop o input) n _ _ _
  parse_field-Returns (array n) input o info p start =
      >>=-Returns (require (drop o input) n (field_name info) truncated_array) _
        (require-Returns (drop o input) n (field_name info) truncated_array) (λ _ _. err-Returns _)
  parse_field-Returns bytes input o info p start =
      vector_Returns input o info _ (λ count datalen. ok-Returns _)
  parse_field-Returns (slice t) input o info p start =
      let (wide, proper) = &&_split (takes_input t none) (is_proper t) p in
      vector_Returns input o info _ (λ count datalen.
        let inner : List ℕ = take datalen (drop (o + count) input) in
        >>=-Returns
          (parse_elems (λ io. parse_field t inner io none) (length inner) (length inner) 0) _
          (parse_elems-Returns (λ io. parse_field t inner io none) (length inner)
            (λ at inside. parse_field-Returns t inner at none proper inside)
            (λ at at' x inside one.
              let w : Within inner at at' (takes_input t none) =
                parse_field-Within t inner at none at' x inside one in
              (w.moves wide, w.inside))
            (length inner) 0 (omega arith) (omega arith))
          (λ vs _. ok-Returns _))
  parse_field-Returns (struct fs) input o info p start =
      >>=-Returns (parse_fields fs input o [] []) _ (parse_fields-Returns fs input o [] [] p start)
        (λ r _.
          >>=-Returns (check_seen info r.1) _ (check_seen-Returns info r.1) (λ _ _. ok-Returns _))
  parse_field-Returns (named_byte_array n) input o info p start = cc
  parse_field-Returns named_bytes input o info p start = cc
  parse_field-Returns other input o info p start = err-Returns _

  parse_fields-Returns :
      (fs : Fields) (input : List ℕ) (o : ℕ) (enums : Map ℕ) (seen : Map Bool)
      → fields_are_proper fs ≡ true
      → o ≤ length input
      → Returns (parse_fields fs input o enums seen)
  parse_fields-Returns done input o enums seen p start = ok-Returns _
  parse_fields-Returns (field name tag t fs) input o enums seen p start =
      let (p0, rest) = &&_split (not (is_empty name) && is_proper t) (fields_are_proper fs) p in
      let (named, proper) = &&_split (not (is_empty name)) (is_proper t) p0 in
      named_Returns tag name _ named (λ i _.
        >>=-Returns (refuse_select i enums) _ (refuse_select-Returns i enums) (λ _ _.
          >>=-Returns (parse_field t input o (some i)) _
            (parse_field-Returns t input o (some i) proper start)
            (λ r one.
              >>=-Returns (parse_fields fs input r.0 (remember name (enum_value t r.1) enums) seen)
                _
                (parse_fields-Returns fs input r.0 (remember name (enum_value t r.1) enums) seen
                  rest (parse_field-Within t input o (some i) r.0 r.1 start one).inside)
                (λ _ _. ok-Returns _))))
  parse_fields-Returns (pointer name tag t fs) input o enums seen p start =
      let (p0, rest) = &&_split (not (is_empty name) && is_proper t) (fields_are_proper fs) p in
      let (named, proper) = &&_split (not (is_empty name)) (is_proper t) p0 in
      named_Returns tag name _ named (λ i _.
        >>=-Returns (need_selector i) _ (need_selector-Returns i) (λ _ _.
          >>=-Returns (choose i enums seen) _ (choose-Returns i enums seen) (λ c _.
            either_Returns c.0 _ _
              (>>=-Returns (parse_fields fs input o enums c.1) _
                (parse_fields-Returns fs input o enums c.1 rest start) (λ _ _. ok-Returns _))
              (>>=-Returns (parse_field t input o (some i)) _
                (parse_field-Returns t input o (some i) proper start)
                (λ r one.
                  >>=-Returns (parse_fields fs input r.0 enums c.1) _
                    (parse_fields-Returns fs input r.0 enums c.1 rest
                      (parse_field-Within t input o (some i) r.0 r.1 start one).inside)
                    (λ _ _. ok-Returns _))))))
  parse_fields-Returns (hidden name tag t fs) input o enums seen p start = cc
  parse_fields-Returns (hidden_pointer name tag t fs) input o enums seen p start = cc

-- Unmarshal returns, with a value or an error: it neither panics nor loops for ever, on any input and
-- with any parameters, for a type whose fields have names and are exported, whose arrays and slices of
-- bytes have elements of type uint8, and whose other slices have elements that take input.
pub unmarshal-Returns :
    (t : GoType) (params : Text) (b : List ℕ)
    → is_proper t ≡ true
    → Returns (unmarshal_with_params t b params)
unfolding unmarshal_with_params
unmarshal-Returns t params b p =
    >>=-Returns (field_tag_to_field_info params []) _ (params_Returns params) (λ info _.
      >>=-Returns (parse_field t b 0 info) _ (parse_field-Returns t b 0 info p (omega arith))
        (λ _ _. ok-Returns _))
