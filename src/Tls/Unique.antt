-- ===== src/Tls/Unique.antt =====
-- tls/tls.go: no two values have the same bytes.
use certificate_transparency.Prelude.{ℕ, ◌≡◌, sym, ap, ◌∙◌, true, List, [], ◌++◌}
use certificate_transparency.Prelude.Outcome.{ok, ok_inj}
use certificate_transparency.Prelude.Text.{Text}
use certificate_transparency.Tls.Tag.{field_tag_to_field_info}
use certificate_transparency.Tls.Types.{GoType, Val}
use certificate_transparency.Tls.Parse.{unmarshal_with_params}
use certificate_transparency.Tls.Marshal.{marshal_with_params}
use certificate_transparency.Tls.Codable.{IsVal, is_codable, info_of}
use certificate_transparency.Tls.RoundTrip.{unmarshal-marshal_params}

-- The encoding is prefix-free: where the bytes of two values of a type, each followed by others, are
-- the same, the values are the same, and so is what follows them; for types and values as in the
-- round trip.
pub marshal_params-prefix_free :
    (t : GoType) (v w : Val t) (params : Text) (bs cs rest rest' : List ℕ)
    → is_codable t (info_of (field_tag_to_field_info params [])) ≡ true
    → IsVal t v
    → IsVal t w
    → marshal_with_params t v params ≡ ok bs
    → marshal_with_params t w params ≡ ok cs
    → bs ++ rest ≡ cs ++ rest'
    → (v ≡ w) × (rest ≡ rest')
marshal_params-prefix_free t v w params bs cs rest rest' c hv hw mv mw same =
    let both : ◌≡◌ {A = Val t × List ℕ} (v, rest) (w, rest') = ok_inj (
      sym (unmarshal-marshal_params t v params bs rest c hv mv)
      ∙ ap (λ z. unmarshal_with_params t z params) same
      ∙ unmarshal-marshal_params t w params cs rest' c hw mw) in
    (ap (λ z. z.0) both, ap (λ z. z.1) both)
