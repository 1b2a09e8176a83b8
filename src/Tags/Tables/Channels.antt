-- ===== src/Tags/Tables/Channels.antt =====
-- The tags of channels, channelWideTags of tags_manager/tags_mapping.go. The names of the channels
-- are the constants of the file.
use ytsync.Base.{String, Dict, List, [], ◌∷◌, ◌++◌}

abbrev channels_first : Dict (List String)
channels_first =
    ("UCftqelpjmbFrUwr3VVzzVwA", "juggling" ∷ "circus arts" ∷ "malabares" ∷ [])
    ∷ ("UCNQfQvFMPnInwsU_iGYArJQ", "science & technology" ∷ "experiments" ∷ "switzerland" ∷ [])
    ∷ ("UCIp-oTSdFO7BhAJpW2d5HMQ", "technology" ∷ "reviews" ∷ [])
    ∷ ("UCE55WTFs4ekJ_aWCoNEapbQ", "art" ∷ "pop culture" ∷ [])
    ∷ ("UCNfELkowZPIQ-Vegmb3pIBQ", "art" ∷ [])
    ∷ ("UCScRxEtwlt082_6ThI0YJbg", "art" ∷ [])
    ∷ ("UCXHWx1teSYIKwTGiscYaC-Q", "art" ∷ [])
    ∷ ("UCD0IC8bZI-MfIutkgPHlyWA", "automotive" ∷ [])
    ∷ ("UCdmY7p_kC-QN8jS7rocmCSA", "automotive" ∷ [])
    ∷ ("UCXtdoCLRlnLIW3Skix0rHaQ", "automotive" ∷ [])
    ∷ ("UC_y2rVsotcQcVF7LImVGs5Q", "beliefs" ∷ [])
    ∷ ("UCGISiGs_RL7Z1qfs1-GD6PA", "beliefs" ∷ [])
    ∷ ("UCyDS9p6NWHpU9XbbbYLFLBw", "beliefs" ∷ [])
    ∷ ("UC_lm7xXB3adOTc0T1FwyGRQ", "blockchain" ∷ [])
    ∷ ("UC-f5nPBEDyUBZz_jOPBwAfQ", "blockchain" ∷ [])
    ∷ ("UC2ldcEtbR7cFYadgrnW3B6Q", "blockchain" ∷ [])
    ∷ ("UC2WKsYBxMwx7E7ENkND-fkg", "blockchain" ∷ [])
    ∷ ("UC4BrnREinCBUenQZi4ZU95w", "blockchain" ∷ [])
    ∷ ("UCdUSSt-IEUg2eq46rD7lu_g", "blockchain" ∷ [])
    ∷ ("UCGQ3XHtsH8Q9iQr9bFbgfDA", "blockchain" ∷ [])
    ∷ ("UCGyqEtcGQQtXyUwvcy7Gmyg", "blockchain" ∷ "technology" ∷ [])
    ∷ ("UCiMgF08KQ4z-Gnu8o2BLOxA", "blockchain" ∷ [])
    ∷ ("UCjsrdOJCAKcuBqyyqjg1cCQ", "blockchain" ∷ [])
    ∷ ("UCl2oCaw8hdR_kbqyqd2klIA", "blockchain" ∷ "technology" ∷ [])
    ∷ ("UCLo66QVfEod0nNM_GzKNxmQ", "blockchain" ∷ "learning" ∷ [])
    ∷ ("UCNCGCxxTT10aeTgUMHW5FfQ", "blockchain" ∷ [])
    ∷ ("UCpceefaJ9vs4RYUTsO9Y3FA", "blockchain" ∷ [])
    ∷ ("UCVVWXoQfMfQVuzxcLylq9aA", "blockchain" ∷ [])
    ∷ ("UCwsRWmIL5XKqFtdytBfeX0g", "blockchain" ∷ [])
    ∷ ("UC0YkP4Fg_d8y6JFwLj3MLdg", "economics" ∷ "learning" ∷ [])
    ∷ ("UCIjuLiLHdFxYtFmWlbTGQRQ", "economics" ∷ [])
    ∷ ("UCnkEhPBMZcEO0QGu51fDFDg", "economics" ∷ [])
    ∷ ("UCwMaWqZ6SdDpTaYOW0huELw", "economics" ∷ "pop culture" ∷ [])
    ∷ ("UC02O9ICMuwrfULSa0N6SiSw", "food" ∷ "art" ∷ [])
    ∷ ("UChZYqTJkeYV2r7WETcytdPQ", "food" ∷ [])
    ∷ ("UClEsPxvotpTJ1Z8eu2Y97rg", "food" ∷ [])
    ∷ ("UCr2eKhGzPhN5RPVk5dd5o3g", "food" ∷ [])
    ∷ ("UC_pC4T8vr-caiNDYU6PYTTA", "funny" ∷ [])
    ∷ ("UCbO0Oomf_jr20Wb4V2ap5Uw", "funny" ∷ [])
    ∷ ("UCDwLrj4DSGrw3gFvANbl_Cw", "funny" ∷ "pop culture" ∷ [])
    ∷ ("UCMOaRU-YsXVgU-WahBkZqWQ", "funny" ∷ [])
    ∷ ("UCuJKELjsmWTlJG0X7T4ZD_A", "funny" ∷ [])
    ∷ ("UCv1J91Nhn7KsxMFaxKChT3w", "funny" ∷ [])
    ∷ ("UCwd_sSDZ8EQt6SEeOO2tBRA", "funny" ∷ [])
    ∷ ("UCyvaZ2RHEDrgKXz43gz7CbQ", "funny" ∷ "news" ∷ [])
    ∷ ("UCZu9AV3mrCCDpK_dy1qJRAQ", "funny" ∷ [])
    ∷ ("UC0cTVjYKgAnBrXQKcICyNmA", "gaming" ∷ "pop culture" ∷ [])
    ∷ ("UC2B8TOklu2rSDULqAzwn5GQ", "gaming" ∷ [])
    ∷ ("UC72o3j23E1wKskBDEKlmTOw", "gaming" ∷ "pop culture" ∷ [])
    ∷ ("UC7FVdUA3SxDMfl4fLBGlADg", "gaming" ∷ [])
    ∷ ("UC7L6NRLyldvxWukhOHABazQ", "gaming" ∷ "funny" ∷ [])
    ∷ ("UC7Q15H71DmB7F1iSFE1Z8LQ", "gaming" ∷ [])
    ∷ ("UC9fh15yUcGAr8iUfQaoRRpQ", "gaming" ∷ [])
    ∷ ("UCaJFEgY6ij05Fxgn6qtcX_g", "gaming" ∷ [])
    ∷ ("UCbjMsFlYb2NLpjS3uDzm9ow", "gaming" ∷ [])
    ∷ ("UCCyN0G77B7wnf-1AOTI3gWQ", "gaming" ∷ "funny" ∷ [])
    ∷ ("UCDjs4JoXmMzvaZyPVsvjKXw", "gaming" ∷ [])
    ∷ ("UCdkonRjBLzr1Adf7Jhu1bWQ", "gaming" ∷ [])
    ∷ ("UCelqWKTcCvBZP_1_1iYZAWA", "gaming" ∷ [])
    ∷ ("UCGPMrF9AN_D9BrmSmMeV3hA", "gaming" ∷ [])
    ∷ ("UCIjFoXSQ9HYbcWmRVIsH-Ow", "gaming" ∷ [])
    ∷ ("UCiR9IHCurqVHpC821NVcW6g", "gaming" ∷ [])
    ∷ ("UCjewtQLpJEENPLbrCtb6YpA", "gaming" ∷ "pop culture" ∷ "technology" ∷ [])
    ∷ ("UCJVdNvvuvOnthuWVQjYff2w", "gaming" ∷ [])
    ∷ ("UCK24784Oqb4oYQfHL9XePNg", "gaming" ∷ "funny" ∷ [])
    ∷ ("UCKWRpZpcLKriWd1am9SHf8A", "gaming" ∷ "funny" ∷ [])
    ∷ ("UCLPIbBCKVH2uKGm5C4sOkew", "gaming" ∷ [])
    ∷ ("UCmII34jN4rqCIsGqWkK5JEg", "gaming" ∷ [])
    ∷ ("UCMxYQX1zaepCgmiSmwbT39w", "gaming" ∷ [])
    ∷ ("UCngaLL0QDbsAGYj7zsB8o_Q", "gaming" ∷ [])
    ∷ ("UCNSwcDEUfIEzYdAPscXo6ZA", "gaming" ∷ [])
    ∷ ("UCoFpRCAsKfWAshvLE1bYzdw", "gaming" ∷ [])
    ∷ ("UCowi5kFfvGXR8NqhyE6jneQ", "gaming" ∷ [])
    ∷ ("UCqjGzmb2pMWSFYm0GzKeTEA", "gaming" ∷ "pop culture" ∷ [])
    ∷ ("UCRj3Q06KOxAZWHaHScrkAOw", "gaming" ∷ [])
    ∷ ("UCsej4tgCoXDgVH3J7M3NMgw", "gaming" ∷ "pop culture" ∷ [])
    ∷ ("UCTZzSNnZ43XQslejT5wFdRw", "gaming" ∷ "funny" ∷ [])
    ∷ ("UCUEF9XL3o8dZ6hvVf8jAi8Q", "gaming" ∷ [])
    ∷ []

abbrev channels_second : Dict (List String)
channels_second =
    ("UCuoTqrobMyZj0ge8LOCkiSw", "gaming" ∷ [])
    ∷ ("UCuvSqzfO_LV_QzHdmEj84SQ", "gaming" ∷ [])
    ∷ ("UCv1Kcz-CuGM6mxzL3B1_Eiw", "gaming" ∷ "technology" ∷ "linux" ∷ [])
    ∷ ("UCW-thz5HxE-goYq8yPds1Gw", "gaming" ∷ "pop culture" ∷ [])
    ∷ ("UCX4N3DioqqrugFeilxTkSIw", "gaming" ∷ [])
    ∷ ("UCxPPTDNH85HZWxrgZ3FQBYA", "gaming" ∷ [])
    ∷ ("UCycXj6lRWtsSqo-bZOIZePw", "gaming" ∷ [])
    ∷ ("UCzfx1QvKjn-BxLMLBdBGgMw", "gaming" ∷ [])
    ∷ ("UC2fhTIbnQlFYaFzyTcmPkXg", "juggling" ∷ "circus art" ∷ "malabares" ∷ [])
    ∷ ("UC4a-Gbdw7vOaccHmFo40b9g", "learning" ∷ "science" ∷ [])
    ∷ ("UCAYrPk70AePJZSaVLKrWdfQ", "learning" ∷ "pop culture" ∷ [])
    ∷ ("UCE3yZjxDg3iI91bcNJDFnsg", "learning" ∷ [])
    ∷ ("UCeggEaXtJu2domMahYMD_ig", "learning" ∷ [])
    ∷ ("UCFhXFikryT4aFcLkLw2LBLA", "learning" ∷ "science" ∷ [])
    ∷ ("UCHnyfMqiRRG1u-2MsSQLbXA", "learning" ∷ "science" ∷ [])
    ∷ ("UCJYawZQYwjZ76mrF_US9eNg", "learning" ∷ [])
    ∷ ("UCS_FY5mR4g22L_E9t1D_ExQ", "learning" ∷ [])
    ∷ ("UCUHW94eEFW7hkUMVaZz4eDg", "learning" ∷ "science" ∷ [])
    ∷ ("UCYO_jab_esuFRV4b17AJtAw", "learning" ∷ [])
    ∷ ("UC-B2LyEZcl3avG0coKeohGQ", "music" ∷ [])
    ∷ ("UC5Q8e9-uutVZmiwAcEHKuzA", "music" ∷ [])
    ∷ ("UC9kc1DaOy2kSzXHZgpn9kfQ", "music" ∷ [])
    ∷ ("UCAwuvzhah0KUw5QNihSkEwQ", "music" ∷ "learning" ∷ [])
    ∷ ("UCJ_waKl9kjbhfXI3LJOfHvA", "music" ∷ [])
    ∷ ("UCmZhiZq7M7d73Kbey4yna_Q", "music" ∷ "funny" ∷ [])
    ∷ ("UCsoiSpBvkr4Y-78Pj3recUw", "music" ∷ [])
    ∷ ("UCsoSK8K4OpdMV1tqJFwO5QA", "music" ∷ [])
    ∷ ("UCtbuGylbRXc42pIxWey19Dg", "music" ∷ [])
    ∷ ("UCUW5GjwcXgbPcfk00t-GQZA", "music" ∷ [])
    ∷ ("UCvmUdL2NHWlj1NRiNJPI-TQ", "music" ∷ [])
    ∷ ("UCdAPAmdnkdFsH5R2Hxevucg", "nature" ∷ [])
    ∷ ("UCwPeW9kFId5-VbQ2LQEjVhg", "nature" ∷ [])
    ∷ ("UC4C_SF5koS4Q5om50b9NMTw", "news" ∷ [])
    ∷ ("UCG749Dj4V2fKa143f8sE60Q", "news" ∷ "technology" ∷ [])
    ∷ ("UCHrDpTVL9S0h91u9UCPgVbA", "news" ∷ [])
    ∷ ("UCvixJtaXuNdMPUGdOPcY8Ag", "news" ∷ [])
    ∷ ("UCzk08fzh5c_BhjQa1w35wtA", "news" ∷ [])
    ∷ ("UC-to_wlckb-bFDtQfUZL3Kw", "pop culture" ∷ "funny" ∷ [])
    ∷ ("UC1MwJy1R0nGQkXxRD9p-zTQ", "pop culture" ∷ "gaming" ∷ [])
    ∷ ("UC5k3Kc0avyDJ2nG9Kxm9JmQ", "pop culture" ∷ [])
    ∷ ("UC5OxQNCgW88FDBxeZCnrBbg", "pop culture" ∷ "funny" ∷ [])
    ∷ ("UCa03bf8gAS2EtffptV-_jfA", "pop culture" ∷ [])
    ∷ ("UCb0yiUQhhLV_jpY3BayJaLA", "pop culture" ∷ "learning" ∷ [])
    ∷ ("UCBs2Y3i14e1NWQxOGliatmg", "pop culture" ∷ "gaming" ∷ [])
    ∷ ("UCDUPGR6uL5uz0_hiRAQjZMQ", "pop culture" ∷ "gaming" ∷ [])
    ∷ ("UCHdTVw89QU6coU1MgN-9RHA", "pop culture" ∷ [])
    ∷ ("UCKAQLEk1GGqnPtov9EW0huQ", "pop culture" ∷ [])
    ∷ ("UCsX-zRuq3ovMsgFqEQLw2Bw", "pop culture" ∷ [])
    ∷ ("UCxGTHsD0pLSFlFI7M7jYmBQ", "pop culture" ∷ "funny" ∷ [])
    ∷ ("UCL_f53ZEJxp8TtlOkHwMV9Q", "psychology" ∷ "postmodernism" ∷ "news" ∷ [])
    ∷ ("UC9SpfUF3rm-MGep5WE6FSCA", "science" ∷ [])
    ∷ ("UCIgKGGJkt1MrNmhq3vRibYA", "science" ∷ "learning" ∷ [])
    ∷ ("UC_ZMqbRu44jK-EogjYyHz8g", "sports" ∷ "funny" ∷ [])
    ∷ ("UCdKRWvz50QoioZFgu6Nf9og", "sports" ∷ "gaming" ∷ [])
    ∷ ("UC0uJKUXiU5T41Fzawy5H6mw", "technology" ∷ [])
    ∷ ("UC2DjFE7Xf11URZqWBigcVOQ", "technology" ∷ "learning" ∷ [])
    ∷ ("UC2eYFnH61tmytImy1mTYvhA", "technology" ∷ "funny" ∷ [])
    ∷ ("UC389S4_2Yt9cei1qNDwmBrA", "technology" ∷ [])
    ∷ ("UC68x_TIzqCtF69fYl2_kl3w", "technology" ∷ "blockchain" ∷ [])
    ∷ ("UCAPR27YUyxmgwm3Wc2WSHLw", "technology" ∷ [])
    ∷ ("UCbmBY_XYZqCa2G0XmFA7ZWg", "technology" ∷ "learning" ∷ [])
    ∷ ("UCD4EOyXKjfDUhCI6jlOZZYQ", "technology" ∷ [])
    ∷ ("UCDIBBmkZIB2hjBsk1hUImdA", "technology" ∷ "learning" ∷ [])
    ∷ ("UCf5ZTSZAKbinY03jOwylfOg", "technology" ∷ [])
    ∷ ("UCh_ugKacslKhsGGdXP0cRRA", "technology" ∷ [])
    ∷ ("UCi62JvN-lUn7hVL3ffofADA", "technology" ∷ "learning" ∷ [])
    ∷ ("UCjYHcWGAjUVqU49D2JOKD3w", "technology" ∷ "blockchain" ∷ [])
    ∷ ("UCkK9UDm_ZNrq_rIXCz3xCGA", "technology" ∷ [])
    ∷ ("UCl97rZ2Tc7KV9lktmmHNFDQ", "technology" ∷ [])
    ∷ ("UCN3bPy04Jkp3ADRtyYvXomQ", "technology" ∷ "learning" ∷ [])
    ∷ ("UCqtlJpkH_llXS_vuDExGVvw", "technology" ∷ [])
    ∷ ("UCr-cm90DwFJC0W3f9jBs5jA", "technology" ∷ [])
    ∷ ("UCTikFhzCiIXfOMS7D29dvYg", "technology" ∷ "gaming" ∷ [])
    ∷ ("UCYtAJXx0ymGPpCndn2Gt6-w", "technology" ∷ [])
    ∷ ("UC2VOURrALs1CwVmbGlXJOPQ", "weapons" ∷ [])
    ∷ ("UCFWjEwhX6cSAKBQ28pufG3w", "weapons" ∷ "gaming" ∷ [])
    ∷ ("UCZjvj5MN3BMxPFfdEKIrvxQ", "weapons" ∷ [])
    ∷ []

unfoldable pub channel_wide_tags : Dict (List String)
channel_wide_tags = channels_first ++ channels_second
