-- ===== src/Validator/Names.antt =====
-- The imports that checkBackwardCompatibility of vmhost/contexts/runtime.go refuses, as bytes.
use drt_go_chain_vm_v.Common.{List, [], ◌∷◌}
use drt_go_chain_vm_v.Common.Bytes.{Bytes}

abbrev transfer_dcdt_execute : Bytes
transfer_dcdt_execute =
    116 ∷ 114 ∷ 97 ∷ 110 ∷ 115 ∷ 102 ∷ 101 ∷ 114 ∷ 68 ∷ 67 ∷ 68 ∷ 84 ∷ 69 ∷ 120 ∷ 101 ∷ 99 ∷ 117
    ∷ 116 ∷ 101 ∷ []

abbrev transfer_dcdt_nft_execute : Bytes
transfer_dcdt_nft_execute =
    116 ∷ 114 ∷ 97 ∷ 110 ∷ 115 ∷ 102 ∷ 101 ∷ 114 ∷ 68 ∷ 67 ∷ 68 ∷ 84 ∷ 78 ∷ 70 ∷ 84 ∷ 69 ∷ 120 ∷ 101
    ∷ 99 ∷ 117 ∷ 116 ∷ 101 ∷ []

abbrev transfer_value_execute : Bytes
transfer_value_execute =
    116 ∷ 114 ∷ 97 ∷ 110 ∷ 115 ∷ 102 ∷ 101 ∷ 114 ∷ 86 ∷ 97 ∷ 108 ∷ 117 ∷ 101 ∷ 69 ∷ 120 ∷ 101 ∷ 99
    ∷ 117 ∷ 116 ∷ 101 ∷ []

abbrev get_dcdt_balance : Bytes
get_dcdt_balance = 103 ∷ 101 ∷ 116 ∷ 68 ∷ 67 ∷ 68 ∷ 84 ∷ 66 ∷ 97 ∷ 108 ∷ 97 ∷ 110 ∷ 99 ∷ 101 ∷ []

abbrev get_dcdt_token_data : Bytes
get_dcdt_token_data =
    103 ∷ 101 ∷ 116 ∷ 68 ∷ 67 ∷ 68 ∷ 84 ∷ 84 ∷ 111 ∷ 107 ∷ 101 ∷ 110 ∷ 68 ∷ 97 ∷ 116 ∷ 97 ∷ []

abbrev get_dcdt_token_type : Bytes
get_dcdt_token_type =
    103 ∷ 101 ∷ 116 ∷ 68 ∷ 67 ∷ 68 ∷ 84 ∷ 84 ∷ 111 ∷ 107 ∷ 101 ∷ 110 ∷ 84 ∷ 121 ∷ 112 ∷ 101 ∷ []

abbrev get_dcdt_token_nonce : Bytes
get_dcdt_token_nonce =
    103 ∷ 101 ∷ 116 ∷ 68 ∷ 67 ∷ 68 ∷ 84 ∷ 84 ∷ 111 ∷ 107 ∷ 101 ∷ 110 ∷ 78 ∷ 111 ∷ 110 ∷ 99 ∷ 101
    ∷ []

abbrev get_current_dcdt_nft_nonce : Bytes
get_current_dcdt_nft_nonce =
    103 ∷ 101 ∷ 116 ∷ 67 ∷ 117 ∷ 114 ∷ 114 ∷ 101 ∷ 110 ∷ 116 ∷ 68 ∷ 67 ∷ 68 ∷ 84 ∷ 78 ∷ 70 ∷ 84 ∷ 78
    ∷ 111 ∷ 110 ∷ 99 ∷ 101 ∷ []

abbrev get_dcdt_nft_name_length : Bytes
get_dcdt_nft_name_length =
    103 ∷ 101 ∷ 116 ∷ 68 ∷ 67 ∷ 68 ∷ 84 ∷ 78 ∷ 70 ∷ 84 ∷ 78 ∷ 97 ∷ 109 ∷ 101 ∷ 76 ∷ 101 ∷ 110 ∷ 103
    ∷ 116 ∷ 104 ∷ []

abbrev get_dcdt_nft_attribute_length : Bytes
get_dcdt_nft_attribute_length =
    103 ∷ 101 ∷ 116 ∷ 68 ∷ 67 ∷ 68 ∷ 84 ∷ 78 ∷ 70 ∷ 84 ∷ 65 ∷ 116 ∷ 116 ∷ 114 ∷ 105 ∷ 98 ∷ 117 ∷ 116
    ∷ 101 ∷ 76 ∷ 101 ∷ 110 ∷ 103 ∷ 116 ∷ 104 ∷ []

abbrev get_dcdt_nft_uri_length : Bytes
get_dcdt_nft_uri_length =
    103 ∷ 101 ∷ 116 ∷ 68 ∷ 67 ∷ 68 ∷ 84 ∷ 78 ∷ 70 ∷ 84 ∷ 85 ∷ 82 ∷ 73 ∷ 76 ∷ 101 ∷ 110 ∷ 103 ∷ 116
    ∷ 104 ∷ []

abbrev big_int_get_dcdt_external_balance : Bytes
big_int_get_dcdt_external_balance =
    98 ∷ 105 ∷ 103 ∷ 73 ∷ 110 ∷ 116 ∷ 71 ∷ 101 ∷ 116 ∷ 68 ∷ 67 ∷ 68 ∷ 84 ∷ 69 ∷ 120 ∷ 116 ∷ 101
    ∷ 114 ∷ 110 ∷ 97 ∷ 108 ∷ 66 ∷ 97 ∷ 108 ∷ 97 ∷ 110 ∷ 99 ∷ 101 ∷ []

abbrev pub dcdt_imports : List Bytes
dcdt_imports =
    transfer_dcdt_execute ∷ transfer_dcdt_nft_execute ∷ transfer_value_execute ∷ get_dcdt_balance
    ∷ get_dcdt_token_data ∷ get_dcdt_token_type ∷ get_dcdt_token_nonce ∷ get_current_dcdt_nft_nonce
    ∷ get_dcdt_nft_name_length ∷ get_dcdt_nft_attribute_length ∷ get_dcdt_nft_uri_length
    ∷ big_int_get_dcdt_external_balance ∷ []
