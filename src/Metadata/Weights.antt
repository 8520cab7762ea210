-- ===== src/Metadata/Weights.antt =====
-- src/lib/jxl/image_metadata.cc: the default upsampling weights of CustomTransformData, as the 32 bits of each float.
use ssimulacra2_vulcan.Common.{ℕ, List, [], ◌∷◌}

-- kWeights2
abbrev pub weights2 : List ℕ
weights2 =
    3163330387 ∷ 3171772421 ∷ 3173302157 ∷ 3169798683 ∷ 3150753541 ∷ 1041268577 ∷ 1049883534
    ∷ 993437983 ∷ 3162761663 ∷ 1058082231 ∷ 1025162005 ∷ 3164782590 ∷ 3170946789 ∷ 3158452571
    ∷ 3138122214 ∷ []

-- kWeights4
abbrev pub weights4 : List ℕ
weights4 =
    3167103875 ∷ 3171878947 ∷ 3172419480 ∷ 3170728924 ∷ 3148716438 ∷ 3163047091 ∷ 3172053097
    ∷ 3172944416 ∷ 3171945688 ∷ 3156352342 ∷ 1047671344 ∷ 1051392205 ∷ 3157255080 ∷ 3159828174
    ∷ 3172052644 ∷ 1040555266 ∷ 1053643734 ∷ 1025627856 ∷ 3165270552 ∷ 1055929185 ∷ 3137938862
    ∷ 3161668653 ∷ 3173416597 ∷ 1044510901 ∷ 1058018199 ∷ 1032368404 ∷ 3166655196 ∷ 3172039190
    ∷ 3153549243 ∷ 3166292405 ∷ 3166805971 ∷ 995030815 ∷ 3171629600 ∷ 3160325724 ∷ 3127919434
    ∷ 3143358982 ∷ 3158218774 ∷ 3162761808 ∷ 3156187190 ∷ 3137022380 ∷ 3157490262 ∷ 3171091027
    ∷ 3174464340 ∷ 3169147866 ∷ 3151210247 ∷ 1031987493 ∷ 1047209588 ∷ 1003405958 ∷ 3164302923
    ∷ 1059906873 ∷ 1034796361 ∷ 3167726253 ∷ 3165955669 ∷ 3163071609 ∷ 3145462485 ∷ []

-- kWeights8
abbrev pub weights8 : List ℕ
weights8 =
    3169839479 ∷ 3172454382 ∷ 3172662309 ∷ 3171429508 ∷ 3146952216 ∷ 3167642566 ∷ 3172578528
    ∷ 3172978247 ∷ 3172338772 ∷ 3151226074 ∷ 3165210546 ∷ 3172809468 ∷ 3173248274 ∷ 3172974293
    ∷ 3155412861 ∷ 3162848239 ∷ 3173119551 ∷ 3173367779 ∷ 3173187930 ∷ 3158875808 ∷ 1050218600
    ∷ 1052185688 ∷ 3167256803 ∷ 3157343181 ∷ 3174087116 ∷ 1047839963 ∷ 1053984740 ∷ 3149645461
    ∷ 3161299823 ∷ 3173905254 ∷ 1043588213 ∷ 1055360922 ∷ 1018915262 ∷ 3164514633 ∷ 3172123943
    ∷ 1038942485 ∷ 1056097807 ∷ 1031845009 ∷ 3168531946 ∷ 1054521862 ∷ 3166190507 ∷ 3158132649
    ∷ 3174753268 ∷ 1049813989 ∷ 1056660561 ∷ 3097853052 ∷ 3162327254 ∷ 3174753010 ∷ 1046051982
    ∷ 1057632498 ∷ 1024066431 ∷ 3165230969 ∷ 3172885583 ∷ 1041348073 ∷ 1058070797 ∷ 1034208235
    ∷ 3169623040 ∷ 3172386105 ∷ 3148983671 ∷ 3169795800 ∷ 3169087651 ∷ 3165488500 ∷ 3173088021
    ∷ 3153994137 ∷ 3167181974 ∷ 3171078891 ∷ 3165019533 ∷ 3173360783 ∷ 3157260159 ∷ 3164482630
    ∷ 3172223651 ∷ 3164715111 ∷ 3173026664 ∷ 3161362680 ∷ 3119271581 ∷ 3144417391 ∷ 3156682389
    ∷ 3158955501 ∷ 3151061555 ∷ 3124472980 ∷ 3140938983 ∷ 3156004944 ∷ 3159561306 ∷ 3153036145
    ∷ 3129820665 ∷ 3137976915 ∷ 3155291872 ∷ 3159876352 ∷ 3154467131 ∷ 3133746953 ∷ 3165543803
    ∷ 3173707146 ∷ 3175474640 ∷ 3171345306 ∷ 3148619265 ∷ 3163352516 ∷ 3173384196 ∷ 3176049680
    ∷ 3172188534 ∷ 3153188466 ∷ 3160135081 ∷ 3173150370 ∷ 3176333980 ∷ 3172745723 ∷ 3156527899
    ∷ 1044528177 ∷ 1051281723 ∷ 3159687771 ∷ 3160469938 ∷ 3173289516 ∷ 1041011376 ∷ 1052401955
    ∷ 1009281237 ∷ 3163952658 ∷ 3171538262 ∷ 1035133432 ∷ 1053003271 ∷ 1026666910 ∷ 3167677930
    ∷ 1058039713 ∷ 999698778 ∷ 3162965459 ∷ 3175625987 ∷ 1048297847 ∷ 1058982259 ∷ 1026604040
    ∷ 3166001518 ∷ 3173666800 ∷ 1042963880 ∷ 1059485724 ∷ 1036324117 ∷ 3170767058 ∷ 3173464743
    ∷ 3155440199 ∷ 3169100256 ∷ 3165486557 ∷ 1006819920 ∷ 3173231121 ∷ 3159079196 ∷ 3166097983
    ∷ 3169934253 ∷ 1008896461 ∷ 3172169652 ∷ 3163162453 ∷ 3130155759 ∷ 3146169931 ∷ 3159655827
    ∷ 3163370786 ∷ 3156707493 ∷ 3134761853 ∷ 3142398756 ∷ 3158806347 ∷ 3163583070 ∷ 3157814253
    ∷ 3138900634 ∷ 3160482813 ∷ 3172699375 ∷ 3176310682 ∷ 3170852523 ∷ 3149835900 ∷ 3157152645
    ∷ 3172190606 ∷ 3176657584 ∷ 3171566711 ∷ 3154270540 ∷ 1036332798 ∷ 1049290706 ∷ 3144145476
    ∷ 3163426760 ∷ 3170971619 ∷ 1030285425 ∷ 1049750740 ∷ 1018608370 ∷ 3166867051 ∷ 1060020465
    ∷ 1028491788 ∷ 3166576587 ∷ 3174272396 ∷ 1044186727 ∷ 1060574725 ∷ 1037913224 ∷ 3171266082
    ∷ 3172269929 ∷ 3160699966 ∷ 3167598526 ∷ 3163397152 ∷ 1029536762 ∷ 3169511746 ∷ 3164280278
    ∷ 3139295385 ∷ 3146928143 ∷ 3162900820 ∷ 3166878314 ∷ 3162079456 ∷ 3143267370 ∷ 3154532415
    ∷ 3170030369 ∷ 3174582898 ∷ 3168855594 ∷ 3150490754 ∷ 1021275663 ∷ 1044849176 ∷ 986807992
    ∷ 3166102106 ∷ 1061155977 ∷ 1038781622 ∷ 3171492564 ∷ 3162737042 ∷ 3165231656 ∷ 3147179656 ∷ []
