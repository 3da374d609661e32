-- ===== src/Profiles/Table.antt =====
-- profiles/profiles.go, MappedTLSClients: the profiles by name.
use httpkit.Prelude.{[], ◌∷◌, Assoc}
use httpkit.Profiles.{ClientProfile}
use httpkit.Profiles.Constants.{Constants}
use httpkit.Profiles.ChromeEarly.{
  chrome_103, chrome_104, chrome_105, chrome_106, chrome_107, chrome_108, chrome_109, chrome_110,
  chrome_111, chrome_112,
}
use httpkit.Profiles.ChromeLater.{chrome_116_psk, chrome_116_psk_pq, chrome_117, chrome_120}
use httpkit.Profiles.ChromeNewer.{chrome_124, chrome_130_psk, chrome_131}
use httpkit.Profiles.ChromeLatest.{chrome_131_psk, chrome_133, chrome_133_psk}
use httpkit.Profiles.SafariPresets.{
  safari_15_6_1, safari_16_0, safari_ios_15_5, safari_ios_15_6, safari_ios_16_0, safari_ipad_15_6,
}
use httpkit.Profiles.SafariIos.{safari_ios_17_0, safari_ios_18_0, safari_ios_18_5}
use httpkit.Profiles.FirefoxEarly.{firefox_102, firefox_104, firefox_105}
use httpkit.Profiles.FirefoxPresets.{firefox_106, firefox_108, firefox_110}
use httpkit.Profiles.FirefoxLater.{firefox_117, firefox_120}
use httpkit.Profiles.FirefoxNewer.{firefox_123, firefox_132}
use httpkit.Profiles.FirefoxLatest.{firefox_133, firefox_135}
use httpkit.Profiles.Opera.{opera_89, opera_90, opera_91}
use httpkit.Profiles.Zalando.{zalando_android_mobile, zalando_ios_mobile}
use httpkit.Profiles.Nike.{cloudflare_custom, nike_android_mobile, nike_ios_mobile}
use httpkit.Profiles.Mms.{mms_ios, mms_ios2, mms_ios3}
use httpkit.Profiles.MeshIos.{mesh_ios, mesh_ios2}
use httpkit.Profiles.MeshAndroid.{mesh_android, mesh_android2}
use httpkit.Profiles.Confirmed.{confirmed_android, confirmed_ios}
use httpkit.Profiles.OkhttpEarly.{okhttp4_android7, okhttp4_android8, okhttp4_android9}
use httpkit.Profiles.Okhttp.{
  okhttp4_android10, okhttp4_android11, okhttp4_android12, okhttp4_android13,
}

module _ (c : Constants) where
  unfoldable pub default_client_profile : ClientProfile
  default_client_profile = chrome_133 c

  unfoldable pub mapped_tls_clients : Assoc ClientProfile
  unfolding chrome_103 chrome_104 chrome_105 chrome_106 chrome_107 chrome_108 chrome_109 chrome_110
      chrome_111 chrome_112 chrome_116_psk chrome_116_psk_pq chrome_117 chrome_120 chrome_124
      chrome_130_psk chrome_131 chrome_131_psk chrome_133 chrome_133_psk cloudflare_custom
      confirmed_android confirmed_ios firefox_102 firefox_104 firefox_105 firefox_106 firefox_108
      firefox_110 firefox_117 firefox_120 firefox_123 firefox_132 firefox_133 firefox_135
      mesh_android mesh_android2 mesh_ios mesh_ios2 mms_ios mms_ios2 mms_ios3 nike_android_mobile
      nike_ios_mobile okhttp4_android10 okhttp4_android11 okhttp4_android12 okhttp4_android13
      okhttp4_android7 okhttp4_android8 okhttp4_android9 opera_89 opera_90 opera_91 safari_15_6_1
      safari_16_0 safari_ios_15_5 safari_ios_15_6 safari_ios_16_0 safari_ios_17_0 safari_ios_18_0
      safari_ios_18_5 safari_ipad_15_6 zalando_android_mobile zalando_ios_mobile
  mapped_tls_clients =
      ("chrome_103", chrome_103 c)
      ∷ ("chrome_104", chrome_104 c)
      ∷ ("chrome_105", chrome_105 c)
      ∷ ("chrome_106", chrome_106 c)
      ∷ ("chrome_107", chrome_107 c)
      ∷ ("chrome_108", chrome_108 c)
      ∷ ("chrome_109", chrome_109 c)
      ∷ ("chrome_110", chrome_110 c)
      ∷ ("chrome_111", chrome_111 c)
      ∷ ("chrome_112", chrome_112 c)
      ∷ ("chrome_116_PSK", chrome_116_psk c)
      ∷ ("chrome_116_PSK_PQ", chrome_116_psk_pq c)
      ∷ ("chrome_117", chrome_117 c)
      ∷ ("chrome_120", chrome_120 c)
      ∷ ("chrome_124", chrome_124 c)
      ∷ ("chrome_130_PSK", chrome_130_psk c)
      ∷ ("chrome_131", chrome_131 c)
      ∷ ("chrome_131_PSK", chrome_131_psk c)
      ∷ ("chrome_133", chrome_133 c)
      ∷ ("chrome_133_PSK", chrome_133_psk c)
      ∷ ("safari_15_6_1", safari_15_6_1 c)
      ∷ ("safari_16_0", safari_16_0 c)
      ∷ ("safari_ipad_15_6", safari_ipad_15_6 c)
      ∷ ("safari_ios_15_5", safari_ios_15_5 c)
      ∷ ("safari_ios_15_6", safari_ios_15_6 c)
      ∷ ("safari_ios_16_0", safari_ios_16_0 c)
      ∷ ("safari_ios_17_0", safari_ios_17_0 c)
      ∷ ("safari_ios_18_0", safari_ios_18_0 c)
      ∷ ("safari_ios_18_5", safari_ios_18_5 c)
      ∷ ("firefox_102", firefox_102 c)
      ∷ ("firefox_104", firefox_104 c)
      ∷ ("firefox_105", firefox_105 c)
      ∷ ("firefox_106", firefox_106 c)
      ∷ ("firefox_108", firefox_108 c)
      ∷ ("firefox_110", firefox_110 c)
      ∷ ("firefox_117", firefox_117 c)
      ∷ ("firefox_120", firefox_120 c)
      ∷ ("firefox_123", firefox_123 c)
      ∷ ("firefox_132", firefox_132 c)
      ∷ ("firefox_133", firefox_133 c)
      ∷ ("firefox_135", firefox_135 c)
      ∷ ("opera_89", opera_89 c)
      ∷ ("opera_90", opera_90 c)
      ∷ ("opera_91", opera_91 c)
      ∷ ("zalando_android_mobile", zalando_android_mobile c)
      ∷ ("zalando_ios_mobile", zalando_ios_mobile c)
      ∷ ("nike_ios_mobile", nike_ios_mobile c)
      ∷ ("nike_android_mobile", nike_android_mobile c)
      ∷ ("cloudscraper", cloudflare_custom c)
      ∷ ("mms_ios", mms_ios c)
      ∷ ("mms_ios_1", mms_ios c)
      ∷ ("mms_ios_2", mms_ios2 c)
      ∷ ("mms_ios_3", mms_ios3 c)
      ∷ ("mesh_ios", mesh_ios c)
      ∷ ("mesh_ios_1", mesh_ios c)
      ∷ ("mesh_ios_2", mesh_ios2 c)
      ∷ ("mesh_android", mesh_android c)
      ∷ ("mesh_android_1", mesh_android c)
      ∷ ("mesh_android_2", mesh_android2 c)
      ∷ ("confirmed_ios", confirmed_ios c)
      ∷ ("confirmed_android", confirmed_android c)
      ∷ ("okhttp4_android_7", okhttp4_android7 c)
      ∷ ("okhttp4_android_8", okhttp4_android8 c)
      ∷ ("okhttp4_android_9", okhttp4_android9 c)
      ∷ ("okhttp4_android_10", okhttp4_android10 c)
      ∷ ("okhttp4_android_11", okhttp4_android11 c)
      ∷ ("okhttp4_android_12", okhttp4_android12 c)
      ∷ ("okhttp4_android_13", okhttp4_android13 c)
      ∷ []
