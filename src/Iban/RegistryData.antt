-- ===== src/Iban/RegistryData.antt =====
-- iban/registry_data.go: the table of countries, row by row in the order of the source.
use iban_pizza.Prelude.{ℕ, List, [], ◌∷◌}
use iban_pizza.Prelude.Text.{Bytes, codes}
use iban_pizza.Iban.Types.{Country, Field}
use Prim.Native.String.{String}

-- A field that a row leaves out is zero at both ends.
abbrev pub field : ℕ → ℕ → Field
field start end = record { start = start; end = end }

abbrev none : Field
none = field 0 0

-- One row, under its key.
abbrev row : String → String → ℕ → String → Field → Field → Field → String → Bytes × Country
row key title total pattern bank branch number sample = (
  codes key,
  record {
    code = codes key;
    name = codes title;
    length = total;
    bban = codes pattern;
    bank_code = bank;
    branch_code = branch;
    account = number;
    example = codes sample;
  },
)

-- `registry`
unfoldable pub registry : List (Bytes × Country)
registry =
    row "DE" "Germany" 22 "8!n10!n" (field 0 8) none (field 8 18) "DE89370400440532013000"
    ∷ row "AT" "Austria" 20 "5!n11!n" (field 0 5) none (field 5 16) "AT611904300234573201"
    ∷ row "BE" "Belgium" 16 "3!n7!n2!n" (field 0 3) none (field 3 10) "BE68539007547034"
    ∷ row "CH" "Switzerland" 21 "5!n12!c" (field 0 5) none (field 5 17) "CH9300762011623852957"
    ∷ row "LI" "Liechtenstein" 21 "5!n12!c" (field 0 5) none (field 5 17) "LI21088100002324013AA"
    ∷ row "LU" "Luxembourg" 20 "3!n13!c" (field 0 3) none (field 3 16) "LU280019400644750000"
    ∷ row "NL" "Netherlands" 18 "4!a10!n" (field 0 4) none (field 4 14) "NL91ABNA0417164300"
    ∷ row "BG" "Bulgaria" 22 "4!a4!n2!n8!c" (field 0 4) (field 4 8) (field 10 18)
        "BG80BNBG96611020345678"
    ∷ row "CY" "Cyprus" 28 "3!n5!n16!c" (field 0 3) (field 3 8) (field 8 24)
        "CY17002001280000001200527600"
    ∷ row "CZ" "Czech Republic" 24 "4!n6!n10!n" (field 0 4) none (field 4 20)
        "CZ6508000000192000145399"
    ∷ row "DK" "Denmark" 18 "4!n9!n1!n" (field 0 4) none (field 4 14) "DK5000400440116243"
    ∷ row "EE" "Estonia" 20 "2!n2!n11!n1!n" (field 0 2) none (field 4 16) "EE382200221020145685"
    ∷ row "ES" "Spain" 24 "4!n4!n1!n1!n10!n" (field 0 4) (field 4 8) (field 10 20)
        "ES9121000418450200051332"
    ∷ row "FI" "Finland" 18 "3!n11!n" (field 0 3) none (field 3 14) "FI2112345600000785"
    ∷ row "FO" "Faroe Islands" 18 "4!n9!n1!n" (field 0 4) none (field 4 14) "FO6264600001631634"
    ∷ row "FR" "France" 27 "5!n5!n11!c2!n" (field 0 5) (field 5 10) (field 10 21)
        "FR1420041010050500013M02606"
    ∷ row "GB" "United Kingdom" 22 "4!a6!n8!n" (field 0 4) (field 4 10) (field 10 18)
        "GB29NWBK60161331926819"
    ∷ row "GI" "Gibraltar" 23 "4!a15!c" (field 0 4) none (field 4 19) "GI75NWBK000000007099453"
    ∷ row "GL" "Greenland" 18 "4!n9!n1!n" (field 0 4) none (field 4 14) "GL8964710001000206"
    ∷ row "GR" "Greece" 27 "3!n4!n16!c" (field 0 3) (field 3 7) (field 7 23)
        "GR1601101250000000012300695"
    ∷ row "HR" "Croatia" 21 "7!n10!n" (field 0 7) none (field 7 17) "HR1210010051863000160"
    ∷ row "HU" "Hungary" 28 "3!n4!n1!n15!n1!n" (field 0 3) (field 3 7) (field 8 23)
        "HU42117730161111101800000000"
    ∷ row "IE" "Ireland" 22 "4!a6!n8!n" (field 0 4) (field 4 10) (field 10 18)
        "IE29AIBK93115212345678"
    ∷ row "IS" "Iceland" 26 "4!n2!n6!n10!n" (field 0 4) none (field 6 12)
        "IS140159260076545510730339"
    ∷ row "IT" "Italy" 27 "1!a5!n5!n12!c" (field 1 6) (field 6 11) (field 11 23)
        "IT60X0542811101000000123456"
    ∷ row "LT" "Lithuania" 20 "5!n11!n" (field 0 5) none (field 5 16) "LT121000011101001000"
    ∷ row "LV" "Latvia" 21 "4!a13!c" (field 0 4) none (field 4 17) "LV80BANK0000435195001"
    ∷ row "MC" "Monaco" 27 "5!n5!n11!c2!n" (field 0 5) (field 5 10) (field 10 21)
        "MC5811222000010123456789030"
    ∷ row "MT" "Malta" 31 "4!a5!n18!c" (field 0 4) (field 4 9) (field 9 27)
        "MT84MALT011000012345MTLCAST001S"
    ∷ row "NO" "Norway" 15 "4!n6!n1!n" (field 0 4) none (field 4 10) "NO9386011117947"
    ∷ row "PL" "Poland" 28 "8!n16!n" (field 0 8) none (field 8 24) "PL61109010140000071219812874"
    ∷ row "PT" "Portugal" 25 "4!n4!n11!n2!n" (field 0 4) (field 4 8) (field 8 19)
        "PT50000201231234567890154"
    ∷ row "RO" "Romania" 24 "4!a16!c" (field 0 4) none (field 4 20) "RO49AAAA1B31007593840000"
    ∷ row "SE" "Sweden" 24 "3!n16!n1!n" (field 0 3) none (field 3 19) "SE4550000000058398257466"
    ∷ row "SI" "Slovenia" 19 "5!n8!n2!n" (field 0 5) none (field 5 13) "SI56263300012039086"
    ∷ row "SK" "Slovakia" 24 "4!n6!n10!n" (field 0 4) none (field 4 20) "SK3112000000198742637541"
    ∷ row "SM" "San Marino" 27 "1!a5!n5!n12!c" (field 1 6) (field 6 11) (field 11 23)
        "SM86U0322509800000000270100"
    ∷ row "AD" "Andorra" 24 "4!n4!n12!c" (field 0 4) (field 4 8) (field 8 20)
        "AD1200012030200359100100"
    ∷ row "AE" "United Arab Emirates" 23 "3!n16!n" (field 0 3) none (field 3 19)
        "AE070331234567890123456"
    ∷ row "AL" "Albania" 28 "8!n16!c" (field 0 3) (field 3 7) (field 8 24)
        "AL47212110090000000235698741"
    ∷ row "AZ" "Azerbaijan" 28 "4!a20!c" (field 0 4) none (field 4 24)
        "AZ21NABZ00000000137010001944"
    ∷ row "BA" "Bosnia and Herzegovina" 20 "3!n3!n8!n2!n" (field 0 3) (field 3 6) (field 6 14)
        "BA391290079401028494"
    ∷ row "BH" "Bahrain" 22 "4!a14!c" (field 0 4) none (field 4 18) "BH67BMAG00001299123456"
    ∷ row "BR" "Brazil" 29 "8!n5!n10!n1!a1!c" (field 0 8) (field 8 13) (field 13 23)
        "BR9700360305000010009795493P1"
    ∷ row "CR" "Costa Rica" 22 "4!n14!n" (field 0 4) none (field 4 18) "CR05015202001026284066"
    ∷ row "DO" "Dominican Republic" 28 "4!c20!n" (field 0 4) none (field 4 24)
        "DO28BAGR00000001212453611324"
    ∷ row "GE" "Georgia" 22 "2!a16!n" (field 0 2) none (field 2 18) "GE29NB0000000101904917"
    ∷ row "GT" "Guatemala" 28 "4!c20!c" (field 0 4) none (field 8 24) "GT82TRAJ01020000001210029690"
    ∷ row "IL" "Israel" 23 "3!n3!n13!n" (field 0 3) (field 3 6) (field 6 19)
        "IL620108000000099999999"
    ∷ row "IQ" "Iraq" 23 "4!a3!n12!n" (field 0 4) (field 4 7) (field 7 19) "IQ98NBIQ850123456789012"
    ∷ row "JO" "Jordan" 30 "4!a4!n18!c" (field 0 4) (field 4 8) (field 8 26)
        "JO94CBJO0010000000000131000302"
    ∷ row "KW" "Kuwait" 30 "4!a22!c" (field 0 4) none (field 4 26) "KW81CBKU0000000000001234560101"
    ∷ row "KZ" "Kazakhstan" 20 "3!n13!c" (field 0 3) none (field 3 16) "KZ86125KZT5004100100"
    ∷ row "LB" "Lebanon" 28 "4!n20!c" (field 0 4) none (field 4 24) "LB62099900000001001901229114"
    ∷ row "MD" "Moldova" 24 "2!c18!c" (field 0 2) none (field 2 20) "MD24AG000225100013104168"
    ∷ row "ME" "Montenegro" 22 "3!n13!n2!n" (field 0 3) none (field 3 16) "ME25505000012345678951"
    ∷ row "MK" "North Macedonia" 19 "3!n10!c2!n" (field 0 3) none (field 3 13) "MK07250120000058984"
    ∷ row "MR" "Mauritania" 27 "5!n5!n11!n2!n" (field 0 5) (field 5 10) (field 10 21)
        "MR1300020001010000123456753"
    ∷ row "MU" "Mauritius" 30 "4!a2!n2!n12!n3!n3!a" (field 0 4) (field 6 8) (field 8 20)
        "MU17BOMM0101101030300200000MUR"
    ∷ row "PK" "Pakistan" 24 "4!a16!c" (field 0 4) none (field 4 20) "PK36SCBL0000001123456702"
    ∷ row "PS" "Palestine" 29 "4!a21!c" (field 0 4) none (field 4 25)
        "PS92PALS000000000400123456702"
    ∷ row "QA" "Qatar" 29 "4!a21!c" (field 0 4) none (field 4 25) "QA58DOHB00001234567890ABCDEFG"
    ∷ row "RS" "Serbia" 22 "3!n13!n2!n" (field 0 3) none (field 3 16) "RS35260005601001611379"
    ∷ row "SA" "Saudi Arabia" 24 "2!n18!c" (field 0 2) none (field 2 20) "SA0380000000608010167519"
    ∷ row "TN" "Tunisia" 24 "2!n3!n13!n2!n" (field 0 2) (field 2 5) (field 5 18)
        "TN5910006035183598478831"
    ∷ row "TR" "Turkey" 26 "5!n1!c16!c" (field 0 5) none (field 6 22) "TR330006100519786457841326"
    ∷ row "UA" "Ukraine" 29 "6!n19!c" (field 0 6) none (field 6 25) "UA213223130000026007233566001"
    ∷ row "VG" "British Virgin Islands" 24 "4!a16!n" (field 0 4) none (field 4 20)
        "VG96VPVG0000012345678901"
    ∷ []
