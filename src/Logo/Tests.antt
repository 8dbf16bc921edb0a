-- ===== src/Logo/Tests.antt =====
-- Runs of the logos, and of the theorem about them.
use iban_pizza.Prelude.{◌&&◌, ◌||◌, ◌+◌, ◌-◌, none, some, if◌then◌else◌, leb, ◌≡◌, refl}
use iban_pizza.Prelude.Text.{
  codes, bytes_eq, is_space, trim_left, trim_space, to_upper, upper, remove_byte,
}
use iban_pizza.Prelude.Assoc.{get}
use iban_pizza.BankData.Store.{keep}
use iban_pizza.Sources.Encoding.{
  encode_rune, encode_utf8, first_byte, decode_from, decode_utf8, runes,
}
use iban_pizza.Logo.Brand.{
  Service, default_brands, institution_prefix, is_shared_space, brand_of, brand_kind, monogram_url,
  logo_for,
}
use iban_pizza.Logo.Monogram.{
  Unicode, is_among, parts, fields, telling_fields, initials, escape_xml,
}
use iban_pizza.Logo.Shown.{IsLogo, logo_for-IsLogo}

unfoldable logo_code : Unit {0}
unfolding get bytes_eq is_space trim_left trim_space to_upper upper remove_byte keep encode_rune
    encode_utf8 first_byte decode_from decode_utf8 runes institution_prefix is_shared_space brand_of
    monogram_url logo_for is_among parts fields telling_fields initials escape_xml
logo_code = tt

service : Service
service = record {
  base_url = codes "https://b";
  brands = default_brands;
  resolver = some (λ bic brand. some (codes "https://art"));
}

commerzbank : (logo_for service (codes "DE") (codes "1") (codes "coba deff")).kind ≡ brand_kind
unfolding logo_code service
commerzbank = refl

cooperative : (logo_for service (codes "DE") (codes "1") (codes "GENODEF1")).brand ≡ none
unfolding logo_code service
cooperative = refl

logo_for-IsLogo_example :
    IsLogo service
      (codes "DE")
      (codes "1")
      (codes "COBADEFF")
      (logo_for service (codes "DE") (codes "1") (codes "COBADEFF"))
logo_for-IsLogo_example = logo_for-IsLogo service (codes "DE") (codes "1") (codes "COBADEFF")

-- The characters of ASCII.
ascii : Unicode
ascii = record {
  is_letter = λ c. (leb b'a' c && leb c b'z') || (leb b'A' c && leb c b'Z');
  is_digit = λ c. leb b'0' c && leb c b'9';
  upper = λ c. if leb b'a' c && leb c b'z' then c - 32 else c;
  lower = λ c. if leb b'A' c && leb c b'Z' then c + 32 else c;
}

two_words : initials ascii (codes "der Volksbank AG, Kiel") ≡ codes "VK"
unfolding logo_code ascii
two_words = refl

one_word : initials ascii (codes "ING-AG") ≡ codes "In"
unfolding logo_code ascii
one_word = refl

escaped : escape_xml (codes "a<b&c") ≡ codes "a&lt;b&amp;c"
unfolding logo_code
escaped = refl
