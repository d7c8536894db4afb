-- ===== src/Pcie/Tables.antt =====
-- The values of exynos9810_phy_config in src/pci/pcie-exynos9810.c, for channel 0.
use galaxy_s9plus_mainline_l.Common.{ℕ, List, [], ◌∷◌}

abbrev pub cmn_config_val : List ℕ
cmn_config_val =
    0x01 ∷ 0xe1 ∷ 0x05 ∷ 0x00 ∷ 0x88 ∷ 0x88 ∷ 0x88 ∷ 0x0c ∷ 0x61 ∷ 0x45 ∷ 0x65 ∷ 0x24 ∷ 0x33 ∷ 0x18
    ∷ 0xe3 ∷ 0xfc ∷ 0xd8 ∷ 0x05 ∷ 0xe6 ∷ 0x80 ∷ 0x00 ∷ 0x00 ∷ 0x00 ∷ 0x00 ∷ 0x60 ∷ 0x11 ∷ 0x00
    ∷ 0xa0 ∷ 0x05 ∷ 0x04 ∷ 0x18 ∷ 0x88 ∷ 0xc0 ∷ 0xff ∷ 0x9b ∷ 0x52 ∷ 0x22 ∷ 0x30 ∷ 0x4f ∷ 0xdc
    ∷ 0x40 ∷ 0x00 ∷ 0x00 ∷ 0x00 ∷ 0x00 ∷ 0xff ∷ 0x00 ∷ 0x80 ∷ []

abbrev pub trsv_config_val : List ℕ
trsv_config_val =
    0x31 ∷ 0x40 ∷ 0x37 ∷ 0x99 ∷ 0x85 ∷ 0x00 ∷ 0xc0 ∷ 0xff ∷ 0xff ∷ 0x3f ∷ 0x8c ∷ 0xc8 ∷ 0x02 ∷ 0x01
    ∷ 0x88 ∷ 0x80 ∷ 0x06 ∷ 0x90 ∷ 0x6c ∷ 0x66 ∷ 0x09 ∷ 0x61 ∷ 0x42 ∷ 0x44 ∷ 0xc6 ∷ 0x50 ∷ 0x0a
    ∷ 0x33 ∷ 0x58 ∷ 0xe7 ∷ 0x20 ∷ 0x22 ∷ 0x80 ∷ 0x38 ∷ 0x05 ∷ 0x85 ∷ 0x00 ∷ 0x00 ∷ 0x00 ∷ 0x7e
    ∷ 0x00 ∷ 0x00 ∷ 0x55 ∷ 0x15 ∷ 0xac ∷ 0xaa ∷ 0x3e ∷ 0x00 ∷ 0x00 ∷ 0x00 ∷ 0x20 ∷ 0x3f ∷ 0x00
    ∷ 0x03 ∷ 0x01 ∷ 0x00 ∷ 0xff ∷ 0xff ∷ 0xff ∷ 0xff ∷ 0xff ∷ 0xff ∷ 0xff ∷ 0xff ∷ 0x00 ∷ 0x00
    ∷ 0x00 ∷ 0x00 ∷ 0x00 ∷ 0x00 ∷ 0x00 ∷ 0x40 ∷ 0x05 ∷ 0x85 ∷ 0xff ∷ 0x00 ∷ 0x00 ∷ 0x00 ∷ 0x00
    ∷ 0x00 ∷ []
